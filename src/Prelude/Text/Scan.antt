-- ===== src/Prelude/Text/Scan.antt =====
-- The searches of the package `strings`: Contains, ContainsAny, LastIndex, SplitN at 2, CutPrefix.
use Prim.Native.Nat.{ℕ}
use mathlib.Core.Path.{◌≡◌, refl}
use mathlib.Core.Bool.{Bool, true, false, ◌||◌}
use mathlib.Core.Option.{Option, none, some}
use mathlib.Core.List.{[], ◌∷◌, ◌++◌}
use native.Mathlib.Omega.{arith}
use notation_aws_verifier.Prelude.Tests.{eqb, if◌then◌else◌}
use notation_aws_verifier.Prelude.Text.{Str}

-- `strings.Contains(s, c)` for one character, and `strings.ContainsAny(s, cs)`.
unfoldable pub contains_char : Str → ℕ → Bool
contains_char [] c = false
contains_char (x ∷ s) c = eqb x c || contains_char s c

unfoldable pub contains_any : Str → Str → Bool
contains_any [] cs = false
contains_any (x ∷ s) cs = contains_char cs x || contains_any s cs

-- `s[strings.LastIndex(s, c)+1:]`: what stands behind the last `c`, all of `s` if there is none.
unfoldable pub after_last : Str → ℕ → Str
after_last [] c = []
after_last (x ∷ s) c =
    let rest = after_last s c in if contains_char s c then rest else if eqb x c then s else x ∷ s

-- `strings.SplitN(s, c, 2)`: the two parts around the first `c`, if there is one.
unfoldable pub split_first : Str → ℕ → Option (Str × Str)
split_first [] c = none
split_first (x ∷ s) c =
    let rest = split_first s c in
    if eqb x c then some ([], s) else elim rest [ none ↦ none | some (a, b) ↦ some (x ∷ a, b) ]

-- `strings.CutPrefix(s, prefix)`.
unfoldable pub cut_prefix : Str → Str → Option Str
cut_prefix s [] = some s
cut_prefix [] (p ∷ ps) = none
cut_prefix (x ∷ s) (p ∷ ps) = let rest = cut_prefix s ps in if eqb x p then rest else none

pub contains_char-append :
    (s t : Str) (c : ℕ) → contains_char (s ++ t) c ≡ (contains_char s c || contains_char t c)
unfolding contains_char
contains_char-append [] t c = refl
contains_char-append (x ∷ s) t c = ground (arith, contains_char-append s t c)

pub contains_any-append :
    (s t cs : Str) → contains_any (s ++ t) cs ≡ (contains_any s cs || contains_any t cs)
unfolding contains_any
contains_any-append [] t cs = refl
contains_any-append (x ∷ s) t cs = ground (arith, contains_any-append s t cs)

-- Text in front that ends before the last `c` does not change what stands behind it.
pub after_last-append :
    (s t : Str) (c : ℕ) → contains_char t c ≡ true → after_last (s ++ t) c ≡ after_last t c
unfolding after_last
after_last-append [] t c h = refl
after_last-append (x ∷ s) t c h =
    ground (arith, contains_char-append s t c, after_last-append s t c h)

-- Text behind that holds no `c` belongs to the last part.
pub after_last-append_plain :
    (s t : Str) (c : ℕ) → contains_char t c ≡ false → after_last (s ++ t) c ≡ after_last s c ++ t
unfolding after_last
after_last-append_plain [] [] c h = refl
after_last-append_plain [] (x ∷ t) c h = unfold contains_char in ground arith
after_last-append_plain (x ∷ s) t c h =
    ground (arith, contains_char-append s t c, after_last-append_plain s t c h)

pub after_last-plain : (s : Str) (c : ℕ) → contains_char (after_last s c) c ≡ false
unfolding after_last contains_char
after_last-plain [] c = refl
after_last-plain (x ∷ s) c = ground (arith, after_last-plain s c)

-- The prefix is what the search cut off.
pub cut_prefix-eq-some : (s p t : Str) → cut_prefix s p ≡ some t → s ≡ p ++ t
unfolding cut_prefix
cut_prefix-eq-some s [] t h = ground arith
cut_prefix-eq-some [] (p ∷ ps) t h = ground arith
cut_prefix-eq-some (x ∷ s) (p ∷ ps) t h = ground (arith, cut_prefix-eq-some s ps t)

pub cut_prefix-append : (p t : Str) → cut_prefix (p ++ t) p ≡ some t
unfolding cut_prefix
cut_prefix-append [] t = refl
cut_prefix-append (x ∷ p) t = ground (arith, cut_prefix-append p t)
