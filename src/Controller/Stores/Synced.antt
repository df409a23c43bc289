-- ===== src/Controller/Stores/Synced.antt =====
-- `syncTrustStores` as a whole, and the stores that the listed objects ask for.
use notation_aws_verifier.Prelude.{
  Str, ◌==◌, ==_iff, Bool, Bool-cases, true, false, Option, Option-cases, some, List, [], ◌∷◌, ◌≡◌,
  ◌↔◌, inl, inr, refl, sym, ap, ◌∙◌, arith, All, All-In,
}
use notation_aws_verifier.Prelude.Exec.{◌>>=◌}
use notation_aws_verifier.Prelude.Exec.Triple.{Triple-wrap, Triple-bind}
use notation_aws_verifier.Prelude.Map.{Map, lookup, insert, lookup-insert}
use notation_aws_verifier.Prelude.Result.{Result, ok, err}
use notation_aws_verifier.Disk.{Os, read_dir}
use notation_aws_verifier.Disk.Frames.{OsLaws, Does, Does-map, Does-each, Does-assume}
use notation_aws_verifier.Disk.Names.{child_path, join-child_path, In-listed, listed-IsName}
use notation_aws_verifier.Disk.Paths.{join}
use notation_aws_verifier.Disk.Tree.{Node, file, directory, children, sort_entries}
use notation_aws_verifier.Controller.Cluster.{TrustStore, Cluster}
use notation_aws_verifier.Controller.Files.{validate_file_name}
use notation_aws_verifier.Controller.Policies.Exact.{SameFiles, Does-read_dir, Does-range_desired}
use notation_aws_verifier.Controller.Policies.Wanted.{validate_file_name-IsName}
use notation_aws_verifier.Controller.Stores.Defs.{
  is_valid, clean_stores, desired_stores, sync_trust_stores,
}
use notation_aws_verifier.Controller.Stores.Paths.{IsStoreKey, cert_path}
use notation_aws_verifier.Controller.Stores.Writes.{
  StaleGrounded, Held, StaleGrounded-made, Does-mkdir_all_kept, Does-write_stores,
}
use notation_aws_verifier.Controller.Stores.Cleaned.{AllHeld, Cleaned, TypeGone, Does-clean_stores}

-- Every bundle of a store lies in the directories of its type and its name.
abbrev pub IsGrounded : Str → Map Node → Type 0
IsGrounded root f =
    (k b : Str) (key : IsStoreKey k)
    → lookup (cert_path root k) f ≡ some (file b)
    → (lookup (child_path root key.type) f ≡ some directory)
      × (lookup (child_path root k) f ≡ some directory)

-- The bundles below the root are exactly the desired ones.
abbrev pub IsStored : Str → Map Str → Map Node → Type 0
IsStored root desired f =
    (k : Str)
    → IsStoreKey k
    → (bundle : Str)
    → (lookup (cert_path root k) f ≡ some (file bundle)) ↔ (lookup k desired ≡ some bundle)

module _ (os : Os) (laws : OsLaws os) (channel : Option Bool) (sent : List os.Object) (root : Str)
    (desired : Map Str) (good : (k v : Str) → lookup k desired ≡ some v → IsStoreKey k) where
  abbrev Grounded : Map Node → Type 0
  Grounded = StaleGrounded os laws channel sent root desired good

  -- What is left when the directories of all types were gone through.
  stored :
      (g f : Map Node) (changed c : Bool)
      → Grounded g
      → Cleaned os laws channel sent root desired good g changed c f
      → All (TypeGone os laws channel sent root desired good f) (sort_entries (children root g))
      → IsStored root desired f
  stored g f changed c gr cleaned gone k key bundle = (
    λ at. elim (Option-cases (lookup k desired)) [
      | inr (v, d) ↦ let same : v ≡ bundle = ground (arith, cleaned.held k v d) in d ∙ ap some same
      | inl stale ↦
          let (t, _) = gr k bundle key stale (cleaned.less _ bundle at) in
          absurd (
            All-In (TypeGone os laws channel sent root desired good f)
              (sort_entries (children root g)) _ gone
              (In-listed root key.type key.is_type directory g t) refl key.name key.is_type
              key.is_name (ap (λ x. lookup x desired) (sym key.joined) ∙ stale) bundle
              (ap (λ x. lookup (cert_path root x) f) (sym key.joined) ∙ at))
    ],
    λ d. cleaned.held k bundle d,
  )

  abbrev pub Synced : Map Node → Bool → Map Node → Type 0
  Synced f0 changed f = IsStored root desired f × (changed ≡ false → SameFiles f0 f)

  Does-clean :
      (f0 g : Map Node) (changed : Bool)
      → Grounded g
      → AllHeld os laws channel sent root desired good g
      → (changed ≡ false → SameFiles f0 g)
      → Does os channel sent
          (λ f. f ≡ g)
          (read_dir os root >>= λ types. clean_stores os root desired types changed)
          (Synced f0)
          (λ f. Unit)
  Does-clean f0 g changed gr held same =
      Triple-bind _ _
        (Does-map os channel sent _ (λ f h. h)
          (λ es f (listed, e). (listed ∙ ap (λ x. sort_entries (children root x)) e, e)) (λ f h. h)
          (Does-read_dir os laws channel sent (λ f. f ≡ g) root))
        (λ types. Does-assume os channel sent _ (λ listed. rw listed (
          Does-map os channel sent _ (λ f h. h)
            (λ c f (cleaned, gone). (
              stored g f changed c gr cleaned gone,
              λ none_changed. let (e, p) = cleaned.untouched none_changed in rw p (same e),
            ))
            (λ f h. h)
            (Does-clean_stores os laws channel sent root desired good
              (sort_entries (children root g)) changed g (listed-IsName root g) held gr))))

  pub Does-sync_trust_stores :
      (f0 : Map Node)
      → IsGrounded root f0
      → Does os channel sent
          (λ f. f ≡ f0)
          (sync_trust_stores os root desired)
          (Synced f0)
          (λ f. Unit)
  unfolding sync_trust_stores
  Does-sync_trust_stores f0 grounded =
      Triple-bind _ _
        (Triple-wrap _ _ _ _ (Does-mkdir_all_kept os laws channel sent root desired good root f0))
        (λ _. Does-each os channel sent _ (λ g (same, kept).
          Triple-bind _ _ (Does-range_desired os laws channel sent (λ f. f ≡ g) desired) (λ entries.
            Does-assume os channel sent _ (λ (each, complete).
              Triple-bind _ _
                (Does-write_stores os laws channel sent root desired good entries false g each (
                  StaleGrounded-made os laws channel sent root desired good f0 g same kept
                    (λ k b key _ at. grounded k b key at)))
                (λ changed. Does-each os channel sent _ (λ h w.
                  Does-clean f0 h changed w.grounded
                    (λ k v d.
                      All-In (Held os laws channel sent root desired good h) entries (k, v) w.held
                        (complete k v d))
                    (λ e. λ q b. (
                      λ x. (same q b).0 (((w.untouched e).1 q b).0 x),
                      λ x. ((w.untouched e).1 q b).1 ((same q b).1 x),
                    ))))))))

module _ (os : Os) (c : Cluster os.Object) where
  open c use {Meta}

  is_valid-eq-true : (r : Result (Unit {0})) → is_valid os c r ≡ true → r ≡ ok tt
  is_valid-eq-true (ok u) h = refl
  is_valid-eq-true (err e) h = absurd (ground arith)

  -- A store with valid names is added under its key.
  with_key :
      (s : TrustStore Meta) (old : Map Str)
      → validate_file_name os s.spec.type ≡ ok tt
      → validate_file_name os s.spec.trust_store_name ≡ ok tt
      → ((k v : Str) → lookup k old ≡ some v → IsStoreKey k)
      → (k v : Str)
      → lookup k (insert (join s.spec.type s.spec.trust_store_name) s.spec.ca_bundle old) ≡ some v
      → IsStoreKey k
  with_key s old vt vn h k v e =
      let key = join s.spec.type s.spec.trust_store_name in
      let n = validate_file_name-IsName os s.spec.trust_store_name vn in
      elim (Bool-cases (key == k)) [
        | inl same ↦ record {
          type = s.spec.type;
          name = s.spec.trust_store_name;
          is_type = validate_file_name-IsName os s.spec.type vt;
          is_name = n;
          joined =
              sym ((==_iff key k).0 same) ∙ join-child_path s.spec.type s.spec.trust_store_name n;
        }
        | inr other ↦ h k v (ground (arith, lookup-insert key k s.spec.ca_bundle old))
      ]

  keys :
      (ss : List (TrustStore Meta)) (old : Map Str)
      → ((k v : Str) → lookup k old ≡ some v → IsStoreKey k)
      → (k v : Str) → lookup k (desired_stores os c ss old) ≡ some v
      → IsStoreKey k
  unfolding desired_stores
  keys [] old h k v e = h k v e
  keys (s ∷ ss) old h k v e = elim (Bool-cases (c.is_deleted s.meta)) [
    | inl gone ↦ keys ss old h k v (ground arith)
    | inr live ↦ elim (Bool-cases (is_valid os c (validate_file_name os s.spec.type))) [
      | inr bad ↦ keys ss old h k v (ground arith)
      | inl good_type ↦
          elim (Bool-cases (is_valid os c (validate_file_name os s.spec.trust_store_name))) [
            | inr bad ↦ keys ss old h k v (ground arith)
            | inl good_name ↦
                keys ss _
                  (with_key s old (is_valid-eq-true _ good_type) (is_valid-eq-true _ good_name) h) k
                  v (ground arith)
          ]
    ]
  ]

  pub desired_stores-IsStoreKey :
      (ss : List (TrustStore Meta)) (k v : Str)
      → lookup k (desired_stores os c ss []) ≡ some v
      → IsStoreKey k
  unfolding lookup
  desired_stores-IsStoreKey ss k v e = keys ss [] (λ j u d. absurd (ground arith)) k v e
