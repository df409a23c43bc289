-- ===== src/Prelude/Text.antt =====
-- Go strings as the lists of their code points, their literals and their equality. The children
-- model the functions of the packages `strings`, `slices` and `path/filepath` that the program calls.
pub mod Scan
pub mod Split
use Prim.Native.Nat.{ℕ}
use Prim.Native.Char.{code}
use Prim.Native.String.{String}
use mathlib.Core.Path.{◌≡◌, refl, ap₂}
use mathlib.Core.Logic.{◌↔◌}
use mathlib.Core.Bool.{Bool, true, false, ◌&&◌}
use mathlib.Core.List.{List, [], ◌∷◌}
use native.Mathlib.Omega.{arith}
use notation_aws_verifier.Prelude.Tests.{eqb, eqb_iff, and-eq-true}

abbrev pub Str : Type 0
Str = List ℕ

-- The code points of a literal.
unfoldable pub codes : String → Str
codes String.[] = []
codes (String.◌∷◌ c s) = code c ∷ codes s

infix 50 ◌==◌
unfoldable pub ◌==◌ : Str → Str → Bool
[] == [] = true
[] == (b ∷ t) = false
(a ∷ s) == [] = false
(a ∷ s) == (b ∷ t) = eqb a b && s == t

eq_of_== : (s t : Str) → (s == t) ≡ true → s ≡ t
unfolding ◌==◌
eq_of_== [] [] h = refl
eq_of_== [] (b ∷ t) h = ground arith
eq_of_== (a ∷ s) [] h = ground arith
eq_of_== (a ∷ s) (b ∷ t) h =
    let (p, q) = and-eq-true (eqb a b) (s == t) h in ap₂ ◌∷◌ ((eqb_iff a b).0 p) (eq_of_== s t q)

pub ==_refl : (s : Str) → (s == s) ≡ true
unfolding ◌==◌
==_refl [] = refl
==_refl (a ∷ s) = ground (arith, ==_refl s)

-- The Boolean equality decides equality.
pub ==_iff : (s t : Str) → ((s == t) ≡ true) ↔ (s ≡ t)
==_iff s t = (eq_of_== s t, λ e. rw e (==_refl t))
