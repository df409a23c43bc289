-- ===== src/Prelude/Text/Split.antt =====
-- `strings.Split`, `strings.TrimSpace` and `slices.Contains`.
use Prim.Native.Nat.{ℕ}
use mathlib.Core.Path.{◌≡◌, refl, sym}
use mathlib.Core.Bool.{Bool, true, false, ◌||◌, ◌&&◌}
use mathlib.Core.List.{List, [], ◌∷◌, ◌++◌}
use native.Mathlib.Omega.{arith}
use notation_aws_verifier.Prelude.Text.Scan.{contains_char}
use notation_aws_verifier.Prelude.Tests.{eqb, eqb_iff, leb, Bool-cases, if◌then◌else◌}
use notation_aws_verifier.Prelude.Text.{Str, ◌==◌, ==_iff}
use mathlib.Core.Logic.{inl, inr}
use notation_aws_verifier.Prelude.Lists.{In}

-- `unicode.IsSpace`, which `strings.TrimSpace` tests.
unfoldable pub is_space : ℕ → Bool
is_space c =
    (leb 9 c && leb c 13)
    || eqb c 32
    || eqb c 0x85
    || eqb c 0xa0
    || eqb c 0x1680
    || (leb 0x2000 c && leb c 0x200a)
    || eqb c 0x2028
    || eqb c 0x2029
    || eqb c 0x202f
    || eqb c 0x205f
    || eqb c 0x3000

unfoldable pub trim_left : Str → Str
trim_left [] = []
trim_left (x ∷ s) = let rest = trim_left s in if is_space x then rest else x ∷ s

-- Drops the blanks at the end: a character stays if it or one behind it is no blank.
keep_char : ℕ → Str → Str
keep_char x [] = if is_space x then [] else x ∷ []
keep_char x (y ∷ s) = x ∷ y ∷ s

unfoldable pub trim_right : Str → Str
unfolding keep_char
trim_right [] = []
trim_right (x ∷ s) = keep_char x (trim_right s)

unfoldable pub trim_space : Str → Str
unfolding trim_left trim_right is_space
trim_space s = trim_right (trim_left s)

-- A part in progress in front of the parts that follow.
push_char : ℕ → List Str → List Str
push_char x [] = (x ∷ []) ∷ []
push_char x (p ∷ ps) = (x ∷ p) ∷ ps

-- `strings.Split(s, c)` at one character: always at least one part.
unfoldable pub split : Str → ℕ → List Str
unfolding push_char
split [] c = [] ∷ []
split (x ∷ s) c = if eqb x c then [] ∷ split s c else push_char x (split s c)

-- `slices.Contains(xs, x)`.
unfoldable pub contains : List Str → Str → Bool
contains [] x = false
contains (y ∷ ys) x = y == x || contains ys x

-- A text with no blank at either end.
abbrev pub first_blank : Str → Bool
first_blank [] = false
first_blank (x ∷ s) = is_space x

abbrev pub last_blank : Str → Bool
last_blank [] = false
last_blank (x ∷ []) = is_space x
last_blank (x ∷ y ∷ s) = last_blank (y ∷ s)

pub first_blank-trim_left : (s : Str) → first_blank (trim_left s) ≡ false
unfolding trim_left
first_blank-trim_left [] = refl
first_blank-trim_left (x ∷ s) = ground (arith, first_blank-trim_left s)

last_blank-keep_char : (x : ℕ) (s : Str) → last_blank s ≡ false → last_blank (keep_char x s) ≡ false
unfolding keep_char
last_blank-keep_char x [] h = ground arith
last_blank-keep_char x (y ∷ s) h = h

last_blank-trim_right : (s : Str) → last_blank (trim_right s) ≡ false
unfolding trim_right
last_blank-trim_right [] = refl
last_blank-trim_right (x ∷ s) = last_blank-keep_char x (trim_right s) (last_blank-trim_right s)

first_blank-keep_char : (x : ℕ) (s : Str) → is_space x ≡ false → first_blank (keep_char x s) ≡ false
unfolding keep_char
first_blank-keep_char x [] h = ground arith
first_blank-keep_char x (y ∷ s) h = h

first_blank-trim_right : (s : Str) → first_blank s ≡ false → first_blank (trim_right s) ≡ false
unfolding trim_right
first_blank-trim_right [] h = refl
first_blank-trim_right (x ∷ s) h = first_blank-keep_char x (trim_right s) h

-- A trimmed text has no blank at either end.
pub trim_space_lem :
    (s : Str) → (first_blank (trim_space s) ≡ false) × (last_blank (trim_space s) ≡ false)
unfolding trim_space
trim_space_lem s = (
  first_blank-trim_right (trim_left s) (first_blank-trim_left s),
  last_blank-trim_right (trim_left s),
)

-- Only an element of the list is contained in it.
pub contains-In : (xs : List Str) (x : Str) → contains xs x ≡ true → In x xs
unfolding contains
contains-In [] x h = absurd (ground arith)
contains-In (y ∷ ys) x h = elim (Bool-cases (y == x)) [
  | inl same ↦ inl (sym ((==_iff y x).0 same))
  | inr other ↦ inr (contains-In ys x (ground arith))
]

-- Up to the first separator there is one part.
pub split-append :
    (s u : Str) (c : ℕ) → contains_char s c ≡ false → split (s ++ c ∷ u) c ≡ s ∷ split u c
unfolding split contains_char
split-append [] u c h = ground (arith, eqb_iff c c)
split-append (x ∷ s) u c h = ground (arith, split-append s u c)

pub split-plain : (s : Str) (c : ℕ) → contains_char s c ≡ false → split s c ≡ s ∷ []
unfolding split contains_char
split-plain [] c h = refl
split-plain (x ∷ s) c h = ground (arith, split-plain s c)

trim_left-fixed : (s : Str) → first_blank s ≡ false → trim_left s ≡ s
unfolding trim_left
trim_left-fixed [] h = refl
trim_left-fixed (x ∷ s) h = ground arith

trim_right-fixed : (s : Str) → last_blank s ≡ false → trim_right s ≡ s
unfolding trim_right keep_char
trim_right-fixed [] h = refl
trim_right-fixed (x ∷ []) h = ground arith
trim_right-fixed (x ∷ y ∷ s) h = rw (trim_right-fixed (y ∷ s) h) refl

-- A text with no blank at either end stays as it is.
pub trim_space-fixed : (s : Str) → first_blank s ≡ false → last_blank s ≡ false → trim_space s ≡ s
unfolding trim_space
trim_space-fixed s first last = rw (trim_left-fixed s first) (trim_right-fixed s last)
