-- ===== src/Cache/Sound.antt =====
-- What is in the cache was verified: the invariant that every operation keeps, for any meaning of
-- "verified" that the callers establish before they add an entry.
use notation_aws_verifier.Prelude.{
  Str, ℕ, Bool, true, false, Option, none, some, List, ◌≡◌, refl, inl, inr, arith,
}
use notation_aws_verifier.Prelude.Exec.{Exec, pure, ◌>>=◌}
use notation_aws_verifier.Prelude.Exec.Keeps.{
  Keeps, Returns, Keeps-pure, Keeps-if, Keeps-bind, Keeps-wrap, Keeps-lift,
}
use notation_aws_verifier.Prelude.Map.{Map}
use notation_aws_verifier.Prelude.Result.{Result, ok, err}
use notation_aws_verifier.Types.{Image, AnyAllConditions}
use notation_aws_verifier.Deps.{Deps, Entry, image, attestation_verified, RistrettoLaws}
use notation_aws_verifier.World.{World, ask}
use notation_aws_verifier.Cache.{
  Cache, create_image_key, create_attestation_key, set_entry, find_entry, add_image, get_image,
  as_image, add_attestation, get_attestation, is_found, clear_cache,
}

abbrev pub OnSome {ℓ κ} : {A : Type ℓ} → (A → Type κ) → Option A → Type κ
OnSome P none = Unit
OnSome P (some a) = P a

module _ (d : Deps) (laws : RistrettoLaws d.ristretto) (ImageOk : Str → Str → Image d.Info → Type 0)
    (AttestationOk : Str → Str → Str → List (AnyAllConditions d.Condition) → Type 0)
    (vs : Map d.Verifier) where
  -- The entry was added under this key for something verified.
  abbrev pub Justified : Str → Entry d.Info → Type 0
  Justified key (image i) = (p : Str) × (r : Str) × (key ≡ create_image_key p r) × ImageOk p r i
  Justified key attestation_verified =
      (p : Str) × (r : Str) × (t : Str) × (cs : List (AnyAllConditions d.Condition))
      × (create_attestation_key d p r t cs ≡ ok key)
      × AttestationOk p r t cs

  -- Every entry is justified, and the notation verifiers are those of this period.
  pub record IsSound (w : World d) : Type 0 where
    pub same : w.verifiers ≡ vs
    pub held : (key : Str) (e : Entry d.Info) → laws.Held w.store key e → Justified key e

  pub Keeps-ask :
      {A : Type 0} (f : ℕ → Result A) → Keeps IsSound (ask d f) (λ a. (n : ℕ) × (f n ≡ ok a))
  unfolding ask
  Keeps-ask f = record {
    at = λ w h. record { same = h.same; held = h.held };
    returns = λ w h. asked f w.calls (f w.calls) refl;
  }
    where
      asked :
          {A : Type 0} (f : ℕ → Result A) (n : ℕ) (r : Result A)
          → f n ≡ r
          → Returns (λ a. (m : ℕ) × (f m ≡ ok a)) r
      asked f n (ok a) e = (n, e)
      asked f n (err x) e = tt

  Keeps-set_entry :
      (c : Cache) (key : Str) (e : Entry d.Info)
      → Justified key e
      → Keeps IsSound (set_entry d c key e) (λ _. Unit)
  unfolding set_entry
  Keeps-set_entry c key e j = record {
    at = λ w h. record {
      same = h.same;
      held = λ k f held. elim (laws.held_set _ _ key e _ _ k f held) [
        | inl before ↦ h.held k f before
        | inr (p, q) ↦ rw (p, q) j
      ];
    };
    returns = λ w h. tt;
  }

  Keeps-find_entry : (key : Str) → Keeps IsSound (find_entry d key) (OnSome (Justified key))
  unfolding find_entry
  Keeps-find_entry key = record {
    at = λ w h. record { same = h.same; held = h.held };
    returns = λ w h. found w h (d.get_entry w.calls w.store key) refl;
  }
    where
      found :
          (w : World d)
          → IsSound w
          → (o : Option (Entry d.Info)) → d.get_entry w.calls w.store key ≡ o
          → OnSome (Justified key) o
      found w h none e = tt
      found w h (some f) e = h.held key f (laws.held_get w.calls w.store key f e)

  -- A hit of an image is an image that was verified under the same key.
  abbrev pub ImageHit : Str → Str → Image d.Info → Type 0
  ImageHit p r i =
      (q : Str) × (s : Str) × (create_image_key p r ≡ create_image_key q s) × ImageOk q s i

  as_image-hit :
      (p r : Str) (o : Option (Entry d.Info))
      → OnSome (Justified (create_image_key p r)) o
      → OnSome (ImageHit p r) (as_image d o)
  as_image-hit p r none h = tt
  as_image-hit p r (some (image i)) h = h
  as_image-hit p r (some attestation_verified) h = tt

  pub Keeps-get_image :
      (c : Cache) (p r : Str) → Keeps IsSound (get_image d c p r) (OnSome (ImageHit p r))
  unfolding get_image
  Keeps-get_image c p r =
      Keeps-if c.use_cache _ _ _
        (λ _.
          Keeps-bind (find_entry d (create_image_key p r)) _
            (Keeps-find_entry (create_image_key p r))
            (λ o h. Keeps-pure (as_image d o) (as_image-hit p r o h)))
        (λ _. Keeps-pure none tt)

  pub Keeps-add_image :
      (c : Cache) (p r : Str) (i : Image d.Info)
      → ImageOk p r i
      → Keeps IsSound (add_image d c p r i) (λ _. Unit)
  unfolding add_image
  Keeps-add_image c p r i v =
      Keeps-if c.use_cache _ _ (λ _. Unit)
        (λ _. Keeps-set_entry c (create_image_key p r) (image i) (p, r, refl, v))
        (λ _. Keeps-pure tt tt)

  pub Keeps-add_attestation :
      (c : Cache) (p r t : Str) (cs : List (AnyAllConditions d.Condition))
      → AttestationOk p r t cs
      → Keeps IsSound (add_attestation d c p r t cs) (λ _. Unit)
  unfolding add_attestation
  Keeps-add_attestation c p r t cs v =
      Keeps-if c.use_cache _ _ _
        (λ _.
          Keeps-bind _ _
            (Keeps-wrap _ _ _ (
              Keeps-lift (create_attestation_key d p r t cs)
                (λ key. create_attestation_key d p r t cs ≡ ok key) (λ key e. e)))
            (λ key e. Keeps-set_entry c key attestation_verified (p, r, t, cs, e, v)))
        (λ _. Keeps-pure tt tt)

  -- A hit of an attestation is something that was verified under the same key.
  abbrev pub AttestationHit : Str → Str → Str → List (AnyAllConditions d.Condition) → Type 0
  AttestationHit p r t cs =
      (key : Str) × (create_attestation_key d p r t cs ≡ ok key)
      × (e : Entry d.Info) × Justified key e

  is_found-hit :
      (p r t : Str) (cs : List (AnyAllConditions d.Condition)) (key : Str)
      → create_attestation_key d p r t cs ≡ ok key
      → (o : Option (Entry d.Info)) → OnSome (Justified key) o
      → is_found d o ≡ true
      → AttestationHit p r t cs
  is_found-hit p r t cs key e none h f = absurd (ground arith)
  is_found-hit p r t cs key e (some x) h f = (key, e, x, h)

  -- The lookup behind a key that was or was not made.
  abbrev looked_up :
      Str → Str → Str → List (AnyAllConditions d.Condition) → Result Str → Exec (World d) Bool
  looked_up p r t cs k = elim k [
    | ok key ↦ (do entry ← find_entry d key; pure (is_found d entry))
    | err e ↦ pure false
  ]

  Keeps-looked_up :
      (p r t : Str) (cs : List (AnyAllConditions d.Condition)) (k : Result Str)
      → create_attestation_key d p r t cs ≡ k
      → Keeps IsSound (looked_up p r t cs k) (λ b. b ≡ true → AttestationHit p r t cs)
  Keeps-looked_up p r t cs (ok key) e =
      Keeps-bind (find_entry d key) _ (Keeps-find_entry key)
        (λ o h. Keeps-pure (is_found d o) (is_found-hit p r t cs key e o h))
  Keeps-looked_up p r t cs (err x) e = Keeps-pure false (λ f. absurd (ground arith))

  pub Keeps-get_attestation :
      (c : Cache) (p r t : Str) (cs : List (AnyAllConditions d.Condition))
      → Keeps IsSound (get_attestation d c p r t cs) (λ b. b ≡ true → AttestationHit p r t cs)
  unfolding get_attestation
  Keeps-get_attestation c p r t cs =
      Keeps-if c.use_cache _ _ _
        (λ _. Keeps-looked_up p r t cs (create_attestation_key d p r t cs) refl)
        (λ _. Keeps-pure false (λ f. absurd (ground arith)))

  -- After `Clear` the invariant holds whatever was in the cache before.
  pub clear_cache-IsSound : (w : World d) → w.verifiers ≡ vs → IsSound (clear_cache d w).1
  unfolding clear_cache
  clear_cache-IsSound w e = record {
    same = e;
    held = λ key x h. absurd (laws.not_held_clear w.store key x h);
  }
