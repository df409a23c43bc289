-- ===== src/Prelude/Exec/Keeps.antt =====
-- Invariants of actions together with what their results satisfy: one rule for each way to build
-- an action.
use mathlib.Core.Path.{◌≡◌, refl}
use mathlib.Core.Bool.{Bool, true, false}
use native.Mathlib.Omega.{arith}
use notation_aws_verifier.Prelude.Tests.{if◌then◌else◌}
use notation_aws_verifier.Prelude.Text.{Str}
use notation_aws_verifier.Prelude.Exec.{
  Result, ok, err, Exec, map_err, pure, fail, lift, wrap, attempt, continue, ◌>>=◌,
}

-- A returned value has the property.
abbrev pub Returns {ℓ κ} : {A : Type ℓ} → (A → Type κ) → Result A → Type κ
Returns Q (ok a) = Q a
Returns Q (err e) = Unit

-- From a state with `P`, `m` ends in one with `P`, whether it fails or not, and a value that it
-- returns has `Q`.
pub record Keeps {ℓ κ} {S A : Type ℓ} (P : S → Type κ) (m : Exec S A) (Q : A → Type κ)
    : Type (ℓ ⊔ κ) where
  pub at : (s : S) → P s → P (m s).1
  pub returns : (s : S) → P s → Returns Q (m s).0

module _ {ℓ κ} {A : Type ℓ} where
  pub Returns-eq : (Q : A → Type κ) (r : Result A) → Returns Q r → (a : A) → r ≡ ok a → Q a
  Returns-eq Q (ok b) q a e = ground arith
  Returns-eq Q (err x) q a e = ground arith

  pub Returns-of : (Q : A → Type κ) (r : Result A) → ((a : A) → r ≡ ok a → Q a) → Returns Q r
  Returns-of Q (ok b) f = f b refl
  Returns-of Q (err x) f = tt

  pub Returns-map :
      (Q R : A → Type κ) (r : Result A) → ((a : A) → Q a → R a) → Returns Q r → Returns R r
  Returns-map Q R (ok a) f q = f a q
  Returns-map Q R (err e) f q = tt

  Returns-map_err :
      (f : Str → Str) (Q : A → Type κ) (r : Result A) → Returns Q r → Returns Q (map_err f r)
  Returns-map_err f Q (ok a) q = q
  Returns-map_err f Q (err e) q = tt

  Returns-ok : (Q : A → Type κ) (r : Result A) → Returns Q r → Returns (Returns Q) (ok r)
  Returns-ok Q r q = q

module _ {ℓ κ} {S A : Type ℓ} {P : S → Type κ} where
  pub Keeps-pure : {Q : A → Type κ} (a : A) → Q a → Keeps P (pure {S = S} a) Q
  Keeps-pure a q = record { at = λ s h. h; returns = λ s h. q }

  pub Keeps-fail : (e : Str) (Q : A → Type κ) → Keeps P (fail {S = S} e) Q
  Keeps-fail e Q = record { at = λ s h. h; returns = λ s h. tt }

  pub Keeps-lift :
      (r : Result A) (Q : A → Type κ) → ((a : A) → r ≡ ok a → Q a) → Keeps P (lift {S = S} r) Q
  Keeps-lift r Q q = record { at = λ s h. h; returns = λ s h. Returns-of Q r q }

  pub Keeps-wrap :
      (f : Str → Str) (m : Exec S A) (Q : A → Type κ) → Keeps P m Q → Keeps P (wrap f m) Q
  unfolding wrap
  Keeps-wrap f m Q k = record {
    at = k.at;
    returns = λ s h. Returns-map_err f Q (m s).0 (k.returns s h);
  }

  pub Keeps-attempt :
      (m : Exec S A) (Q : A → Type κ) → Keeps P m Q → Keeps P (attempt m) (Returns Q)
  unfolding attempt
  Keeps-attempt m Q k = record { at = k.at; returns = k.returns }

  pub Keeps-map :
      (Q R : A → Type κ) (m : Exec S A) → ((a : A) → Q a → R a) → Keeps P m Q → Keeps P m R
  Keeps-map Q R m f k = record {
    at = k.at;
    returns = λ s h. Returns-map Q R (m s).0 f (k.returns s h);
  }

  pub Keeps-forget : (Q : A → Type κ) (m : Exec S A) → Keeps P m Q → Keeps P m (λ _. Unit)
  Keeps-forget Q m k = Keeps-map Q (λ _. Unit) m (λ a q. tt) k

  pub Keeps-if :
      (b : Bool) (m n : Exec S A) (Q : A → Type κ)
      → (b ≡ true → Keeps P m Q)
      → (b ≡ false → Keeps P n Q)
      → Keeps P (if b then m else n) Q
  Keeps-if true m n Q km kn = km refl
  Keeps-if false m n Q km kn = kn refl

module _ {ℓ κ} {S A B : Type ℓ} {P : S → Type κ} where
  continue-at :
      (r : Result A) (f : A → Exec S B) (Q : A → Type κ) (R : B → Type κ) (s : S)
      → P s
      → Returns Q r
      → ((a : A) → Q a → Keeps P (f a) R)
      → P (continue r f s).1
  continue-at (ok a) f Q R s h q k = (k a q).at s h
  continue-at (err e) f Q R s h q k = h

  continue-Returns :
      (r : Result A) (f : A → Exec S B) (Q : A → Type κ) (R : B → Type κ) (s : S)
      → P s
      → Returns Q r
      → ((a : A) → Q a → Keeps P (f a) R)
      → Returns R (continue r f s).0
  continue-Returns (ok a) f Q R s h q k = (k a q).returns s h
  continue-Returns (err e) f Q R s h q k = tt

  -- The rest of a block may use what the first action's result satisfies.
  pub Keeps-bind :
      {Q : A → Type κ} {R : B → Type κ} (m : Exec S A) (f : A → Exec S B)
      → Keeps P m Q
      → ((a : A) → Q a → Keeps P (f a) R)
      → Keeps P (m >>= f) R
  unfolding ◌>>=◌
  Keeps-bind {Q} {R} m f km kf = record {
    at = λ s h. continue-at (m s).0 f Q R (m s).1 (km.at s h) (km.returns s h) kf;
    returns = λ s h. continue-Returns (m s).0 f Q R (m s).1 (km.at s h) (km.returns s h) kf;
  }
