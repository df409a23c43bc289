-- ===== src/Prelude/Exec/Triple.antt =====
-- What an action does to its state: from a state with `P` it ends with a value and a state that
-- have `Q`, or with an error and a state that have `E`.
use mathlib.Core.Path.{◌≡◌, refl, subst, fun_ext}
use mathlib.Core.Bool.{Bool, true, false}
use notation_aws_verifier.Prelude.Tests.{if◌then◌else◌}
use notation_aws_verifier.Prelude.Text.{Str}
use notation_aws_verifier.Prelude.Exec.{
  Exec, Result, ok, err, map_err, pure, fail, wrap, attempt, continue, ◌>>=◌,
}

module _ {ℓ κ} {S A : Type ℓ} where
  abbrev pub Outcome : (A → S → Type κ) → (Str → S → Type κ) → Result A → S → Type κ
  Outcome Q E (ok a) s = Q a s
  Outcome Q E (err e) s = E e s

  pub record Triple (P : S → Type κ) (m : Exec S A) (Q : A → S → Type κ) (E : Str → S → Type κ)
      : Type (ℓ ⊔ κ) where
    pub run : (s : S) → P s → Outcome Q E (m s).0 (m s).1

  pub Outcome-map :
      (Q R : A → S → Type κ) (E F : Str → S → Type κ) (r : Result A) (s : S)
      → ((a : A) (s : S) → Q a s → R a s)
      → ((e : Str) (s : S) → E e s → F e s)
      → Outcome Q E r s
      → Outcome R F r s
  Outcome-map Q R E F (ok a) s f g h = f a s h
  Outcome-map Q R E F (err e) s f g h = g e s h

  Outcome-map_err :
      (Q : A → S → Type κ) (E : Str → S → Type κ) (f : Str → Str) (r : Result A) (s : S)
      → Outcome Q (λ e. E (f e)) r s
      → Outcome Q E (map_err f r) s
  Outcome-map_err Q E f (ok a) s h = h
  Outcome-map_err Q E f (err e) s h = h

  -- What holds of the state in either case.
  pub Outcome-either : (R : S → Type κ) (r : Result A) (s : S) → Outcome (λ _. R) (λ _. R) r s → R s
  Outcome-either R (ok a) s h = h
  Outcome-either R (err e) s h = h

module _ {ℓ κ} {S A : Type ℓ} {P : S → Type κ} where
  -- What a run with a known end has.
  pub Triple-ok :
      {Q : A → S → Type κ} {E : Str → S → Type κ} (m : Exec S A)
      → Triple P m Q E
      → (s t : S) (a : A) → P s
      → m s ≡ (ok a, t)
      → Q a t
  Triple-ok {Q = Q} {E} m k s t a p e = subst (λ x. Outcome Q E x.0 x.1) e (k.run s p)

  pub Triple-err :
      {Q : A → S → Type κ} {E : Str → S → Type κ} (m : Exec S A)
      → Triple P m Q E
      → (s t : S) (x : Str) → P s
      → m s ≡ (err x, t)
      → E x t
  Triple-err {Q = Q} {E} m k s t x p e = subst (λ x. Outcome Q E x.0 x.1) e (k.run s p)

  pub Triple-pure :
      {Q : A → S → Type κ} {E : Str → S → Type κ} (a : A)
      → ((s : S) → P s → Q a s)
      → Triple P (pure a) Q E
  Triple-pure a h = record { run = h }

  pub Triple-fail :
      {Q : A → S → Type κ} {E : Str → S → Type κ} (e : Str)
      → ((s : S) → P s → E e s)
      → Triple P (fail e) Q E
  Triple-fail e h = record { run = h }

  -- A stronger start and weaker ends.
  pub Triple-map :
      {P' : S → Type κ} {Q R : A → S → Type κ} {E F : Str → S → Type κ} (m : Exec S A)
      → ((s : S) → P s → P' s)
      → ((a : A) (s : S) → Q a s → R a s)
      → ((e : Str) (s : S) → E e s → F e s)
      → Triple P' m Q E
      → Triple P m R F
  Triple-map {Q = Q} {R} {E} {F} m p f g t = record {
    run = λ s h. Outcome-map Q R E F (m s).0 (m s).1 f g (t.run s (p s h));
  }

  pub Triple-wrap :
      (Q : A → S → Type κ) (E : Str → S → Type κ) (f : Str → Str) (m : Exec S A)
      → Triple P m Q (λ e. E (f e))
      → Triple P (wrap f m) Q E
  unfolding wrap
  Triple-wrap Q E f m t = record { run = λ s h. Outcome-map_err Q E f (m s).0 (m s).1 (t.run s h) }

  pub Triple-attempt :
      (Q : A → S → Type κ) (E F : Str → S → Type κ) (m : Exec S A)
      → Triple P m Q E
      → Triple P (attempt m) (Outcome Q E) F
  unfolding attempt
  Triple-attempt Q E F m t = record { run = t.run }

  -- Of every action this much is known.
  pub Triple-any : (m : Exec S A) → Triple P m (λ _ _. Unit {κ}) (λ _ _. Unit {κ})
  Triple-any m = record { run = λ s h. trivial (m s).0 (m s).1 }
    where
      trivial : (r : Result A) (s : S) → Outcome (λ _ _. Unit {κ}) (λ _ _. Unit {κ}) r s
      trivial (ok a) s = tt
      trivial (err e) s = tt

  pub Triple-if :
      {Q : A → S → Type κ} {E : Str → S → Type κ} (b : Bool) (m n : Exec S A)
      → (b ≡ true → Triple P m Q E)
      → (b ≡ false → Triple P n Q E)
      → Triple P (if b then m else n) Q E
  Triple-if true m n tm tn = tm refl
  Triple-if false m n tm tn = tn refl

module _ {ℓ κ} {S A B : Type ℓ} where
  continue_outcome :
      (Q : A → S → Type κ) (R : B → S → Type κ) (E : Str → S → Type κ) (r : Result A) (s : S)
      (f : A → Exec S B)
      → Outcome Q E r s
      → ((a : A) → Triple (Q a) (f a) R E)
      → Outcome R E (continue r f s).0 (continue r f s).1
  continue_outcome Q R E (ok a) s f h k = (k a).run s h
  continue_outcome Q R E (err e) s f h k = h

  pub Triple-bind :
      {P : S → Type κ} {Q : A → S → Type κ} {R : B → S → Type κ} {E : Str → S → Type κ}
      (m : Exec S A) (f : A → Exec S B)
      → Triple P m Q E
      → ((a : A) → Triple (Q a) (f a) R E)
      → Triple P (m >>= f) R E
  unfolding ◌>>=◌
  Triple-bind {Q = Q} {R} {E} m f t k = record {
    run = λ s h. continue_outcome Q R E (m s).0 (m s).1 f (t.run s h) k;
  }

-- Two steps may be read as one.
module _ {ℓ} {S A B C : Type ℓ} where
  bind_assoc :
      (m : Exec S A) (n : A → Exec S B) (k : B → Exec S C)
      → (m >>= λ a. (n a >>= k)) ≡ ((m >>= n) >>= k)
  unfolding ◌>>=◌
  bind_assoc m n k = fun_ext (λ s. by_result (m s).0 (m s).1)
    where
      by_result :
          (r : Result A) (s : S)
          → continue r (λ a. (n a >>= k)) s ≡ continue (continue r n s).0 k (continue r n s).1
      by_result (ok a) s = refl
      by_result (err e) s = refl

  pub Triple-then {κ} :
      {P : S → Type κ} {Q : B → S → Type κ} {R : C → S → Type κ} {E : Str → S → Type κ}
      (m : Exec S A) (n : A → Exec S B) (k : B → Exec S C)
      → Triple P (m >>= n) Q E
      → ((b : B) → Triple (Q b) (k b) R E)
      → Triple P (m >>= λ a. (n a >>= k)) R E
  Triple-then m n k t kt = rw (bind_assoc m n k) (Triple-bind (m >>= n) k t kt)
