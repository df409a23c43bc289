-- ===== src/Prelude/Exec.antt =====
-- Fallible code over a state. What was written before an error stays written, so the state comes
-- back beside the error too. An error is its text.
pub mod Keeps
pub mod Triple
use notation_aws_verifier.Prelude.Text.{Str}
pub use notation_aws_verifier.Prelude.Result.{Result, ok, err, map_err}

abbrev pub Exec {ℓ} : Type ℓ → Type ℓ → Type ℓ
Exec S A = S → Result A × S

module _ {ℓ} {S A : Type ℓ} where
  abbrev pub pure : A → Exec S A
  pure a s = (ok a, s)

  abbrev pub fail : Str → Exec S A
  fail e s = (err e, s)

  abbrev pub lift : Result A → Exec S A
  lift r s = (r, s)

  unfoldable pub wrap : (Str → Str) → Exec S A → Exec S A
  wrap f m s = let (r, s') = m s in (map_err f r, s')

  -- Runs to the end and hands its error over as a value.
  unfoldable pub attempt : Exec S A → Exec S (Result A)
  attempt m s = let (r, s') = m s in (ok r, s')

module _ {ℓ} {S A B : Type ℓ} where
  abbrev pub continue : Result A → (A → Exec S B) → Exec S B
  continue (err e) f s = (err e, s)
  continue (ok a) f s = f a s

  infixl 10 ◌>>=◌ ◌>>◌
  unfoldable pub ◌>>=◌ : Exec S A → (A → Exec S B) → Exec S B
  ◌>>=◌ m f s = let (r, s') = m s in continue r f s'

  abbrev pub ◌>>◌ : Exec S A → Exec S B → Exec S B
  m >> n = m >>= λ _. n
