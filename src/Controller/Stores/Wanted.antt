-- ===== src/Controller/Stores/Wanted.antt =====
-- The bundles that a list of objects asks for, in words that do not name the loop.
use notation_aws_verifier.Prelude.{
  Str, ◌==◌, ==_iff, ==_refl, true, false, Bool-cases, some, List, [], ◌∷◌, ◌≡◌, ◌⊎◌, inl, inr,
  refl, sym, In, arith,
}
use notation_aws_verifier.Prelude.Map.{Map, lookup, insert, lookup-insert}
use notation_aws_verifier.Prelude.Result.{Result, ok, err}
use notation_aws_verifier.Disk.{Os}
use notation_aws_verifier.Disk.Paths.{join}
use notation_aws_verifier.Controller.Cluster.{TrustStore, Cluster}
use notation_aws_verifier.Controller.Files.{validate_file_name}
use notation_aws_verifier.Controller.Stores.Defs.{is_valid, desired_stores}

module _ (os : Os) (c : Cluster os.Object) where
  open c use {Meta}

  -- The object is not being deleted, and its type and its name are valid.
  pub record IsLive (s : TrustStore Meta) : Type 0 where
    pub kept : c.is_deleted s.meta ≡ false
    pub good_type : validate_file_name os s.spec.type ≡ ok tt
    pub good_name : validate_file_name os s.spec.trust_store_name ≡ ok tt

  abbrev pub store_key : TrustStore Meta → Str
  store_key s = join s.spec.type s.spec.trust_store_name

  -- A live object asks for this bundle.
  pub record Asks (k v : Str) (s : TrustStore Meta) : Type 0 where
    pub live : IsLive s
    pub named : k ≡ store_key s
    pub bundle : s.spec.ca_bundle ≡ v

  -- Each bundle is one that an object of the list asks for, and each live object has a bundle.
  pub record AsksAll (objects : List (TrustStore Meta)) (bundles : Map Str) : Type 0 where
    pub only :
        (k v : Str) → lookup k bundles ≡ some v → (s : TrustStore Meta) × In s objects × Asks k v s
    pub each :
        (s : TrustStore Meta)
        → In s objects
        → IsLive s
        → (v : Str) × (lookup (store_key s) bundles ≡ some v)

  valid-ok : (r : Result (Unit {0})) → is_valid os c r ≡ true → r ≡ ok tt
  valid-ok (ok u) h = refl
  valid-ok (err e) h = absurd (ground arith)

  abbrev Taken : TrustStore Meta → List (TrustStore Meta) → Map Str → Type 0
  Taken s ss old =
      ((¬ IsLive s) × (desired_stores os c (s ∷ ss) old ≡ desired_stores os c ss old))
      ⊎ (IsLive s
          × (desired_stores os c (s ∷ ss) old
              ≡ desired_stores os c ss (insert (store_key s) s.spec.ca_bundle old)))

  taken : (s : TrustStore Meta) (ss : List (TrustStore Meta)) (old : Map Str) → Taken s ss old
  unfolding desired_stores
  taken s ss old = elim (Bool-cases (c.is_deleted s.meta)) [
    | inl gone ↦ inl (λ l. absurd (ground (arith, l.kept)), ground arith)
    | inr kept ↦ elim (Bool-cases (is_valid os c (validate_file_name os s.spec.type))) [
      | inr bad ↦ inl (λ l. absurd (ground (arith, rw l.good_type at bad)), ground arith)
      | inl good ↦
          elim (Bool-cases (is_valid os c (validate_file_name os s.spec.trust_store_name))) [
            | inr bad ↦ inl (λ l. absurd (ground (arith, rw l.good_name at bad)), ground arith)
            | inl fine ↦ inr (
              record { kept = kept; good_type = valid-ok _ good; good_name = valid-ok _ fine },
              ground arith,
            )
          ]
    ]
  ]

  asked_for :
      (ss : List (TrustStore Meta)) (old : Map Str) (k v : Str)
      → lookup k (desired_stores os c ss old) ≡ some v
      → ((s : TrustStore Meta) × In s ss × Asks k v s) ⊎ (lookup k old ≡ some v)
  unfolding desired_stores
  asked_for [] old k v e = inr e
  asked_for (s ∷ ss) old k v e = elim (taken s ss old) [
    | inl (skipped, g) ↦ later (asked_for ss old k v (rw g at e))
    | inr (live, g) ↦ elim (asked_for ss _ k v (rw g at e)) [
      | inl (q, i, a) ↦ inl (q, inr i, a)
      | inr old_or_new ↦ elim (Bool-cases (store_key s == k)) [
        | inl same ↦ inl (
          s,
          inl refl,
          record {
            live = live;
            named = sym ((==_iff _ k).0 same);
            bundle = ground (arith, lookup-insert (store_key s) k s.spec.ca_bundle old);
          },
        )
        | inr other ↦ inr (ground (arith, lookup-insert (store_key s) k s.spec.ca_bundle old))
      ]
    ]
  ]
    where
      later :
          ((q : TrustStore Meta) × In q ss × Asks k v q) ⊎ (lookup k old ≡ some v)
          → ((q : TrustStore Meta) × In q (s ∷ ss) × Asks k v q) ⊎ (lookup k old ≡ some v)
      later (inl (q, i, a)) = inl (q, inr i, a)
      later (inr e) = inr e

  abbrev Has : Str → Map Str → Type 0
  Has k m = (v : Str) × (lookup k m ≡ some v)

  Has-insert : (k j text : Str) (m : Map Str) → Has k m → Has k (insert j text m)
  Has-insert k j text m (v, e) = elim (Bool-cases (j == k)) [
    | inl same ↦ (text, ground (arith, lookup-insert j k text m))
    | inr other ↦ (v, ground (arith, lookup-insert j k text m))
  ]

  stays :
      (ss : List (TrustStore Meta)) (old : Map Str) (k : Str)
      → Has k old
      → Has k (desired_stores os c ss old)
  unfolding desired_stores
  stays [] old k a = a
  stays (s ∷ ss) old k a = elim (taken s ss old) [
    | inl (skipped, g) ↦ rw g (stays ss old k a)
    | inr (live, g) ↦ rw g (stays ss _ k (Has-insert k _ s.spec.ca_bundle old a))
  ]

  live_bundle :
      (ss : List (TrustStore Meta)) (old : Map Str) (s : TrustStore Meta)
      → In s ss
      → IsLive s
      → Has (store_key s) (desired_stores os c ss old)
  live_bundle [] old s i l = elim i [ ]
  live_bundle (q ∷ ss) old s (inr i) l = elim (taken q ss old) [
    | inl (skipped, g) ↦ rw g (live_bundle ss old s i l)
    | inr (live, g) ↦ rw g (live_bundle ss _ s i l)
  ]
  live_bundle (q ∷ ss) old s (inl same) l = elim (taken q ss old) [
    | inl (skipped, g) ↦ absurd (skipped (rw (← same) l))
    | inr (live, g) ↦ rw g (
        stays ss _ (store_key s) (
          rw same (
            q.spec.ca_bundle,
            ground (
              arith,
              lookup-insert (store_key q) (store_key q) q.spec.ca_bundle old,
              ==_refl (store_key q),
            ),
          )))
  ]

  -- In the map of the bundles, each bundle is that of an object of the list that is not being
  -- deleted and has a valid type and name, under that type and name; and each such object has a
  -- bundle.
  pub desired_stores-AsksAll :
      (objects : List (TrustStore Meta)) → AsksAll objects (desired_stores os c objects [])
  unfolding lookup
  desired_stores-AsksAll objects = record {
    only = λ k v e. elim (asked_for objects [] k v e) [
      | inl found ↦ found
      | inr none_before ↦ absurd (ground arith)
    ];
    each = λ s i l. live_bundle objects [] s i l;
  }
