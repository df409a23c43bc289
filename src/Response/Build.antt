-- ===== src/Response/Build.antt =====
-- `build_attestation_list` succeeds, whatever orders the runtime chooses, and gives each image the
-- types that the policy asks for there.
use notation_aws_verifier.Prelude.{
  Str, ℕ, zero, suc, ◌+◌, ◌≤◌, ◌==◌, ==_iff, ==_refl, ◌++◌, Option, none, some, List, [], ◌∷◌, ◌≡◌,
  refl, fun_ext, ap, arith, Option-cases, Bool-cases, inl, inr, if◌then◌else◌, ◌∙◌,
}
use notation_aws_verifier.Prelude.Map.{
  keys, count, lookup, lookup-insert, insert, count-insert, count-lookup, lookup-eq-some-count,
  NodupKeys,
}
use notation_aws_verifier.Prelude.Result.{Result, ok, ◌>>=◌}
use notation_aws_verifier.Types.{AttestationType, AttestationsInfo, AttestationList}
use notation_aws_verifier.Deps.{Kyverno}
use notation_aws_verifier.Response.{
  Response, add_type, add_attestations, add_all_types, add_to_images, build_attestation_list,
}
use notation_aws_verifier.Response.Required.{types_for, add_types}

abbrev iterate {ℓ} : {A : Type ℓ} → ℕ → (A → A) → A → A
iterate zero f x = x
iterate (suc n) f x = iterate n f (f x)

abbrev pub on_some {ℓ} : {A B : Type ℓ} → (A → B) → Option A → Option B
on_some f none = none
on_some f (some a) = some (f a)

module _ (k : Kyverno) where
  open k use {Condition, wildcard_match}

  -- `r'` differs from `r` in the maps of the images alone: that of `j` went through `f j`.
  pub record Updates (f : Str → AttestationList Condition → AttestationList Condition)
      (r r' : Response Condition) : Type 0 where
    pub at : (j : Str) → lookup j r'.image_list ≡ on_some (f j) (lookup j r.image_list)
    pub counts : (j : Str) → count j (keys r'.image_list) ≡ count j (keys r.image_list)
    pub unchanged : r'.response_data ≡ r.response_data

  abbrev Succeeds :
      (Str → AttestationList Condition → AttestationList Condition)
      → Response Condition
      → Result (Response Condition)
      → Type 0
  Succeeds f r res = (r' : Response Condition) × (res ≡ ok r') × Updates f r r'

  -- The change to one image alone.
  abbrev only :
      Str
      → (AttestationList Condition → AttestationList Condition)
      → Str
      → AttestationList Condition
      → AttestationList Condition
  only img f j l = if img == j then f l else l

  Updates-trans :
      (f g : Str → AttestationList Condition → AttestationList Condition)
      (r r' r'' : Response Condition)
      → Updates f r r'
      → Updates g r' r''
      → Updates (λ j l. g j (f j l)) r r''
  Updates-trans f g r r' r'' u v = record {
    at = λ j. ground (arith, u.at j, v.at j);
    counts = λ j. v.counts j ∙ u.counts j;
    unchanged = v.unchanged ∙ u.unchanged;
  }

  Succeeds-bind :
      (f g : Str → AttestationList Condition → AttestationList Condition) (r : Response Condition)
      (m : Result (Response Condition)) (n : Response Condition → Result (Response Condition))
      → Succeeds f r m
      → ((r' : Response Condition) → Updates f r r' → Succeeds g r' (n r'))
      → Succeeds (λ j l. g j (f j l)) r (m >>= n)
  Succeeds-bind f g r m n (r', e, u) rest =
      let (r'', e', v) = rest r' u in (r'', rw e e', Updates-trans f g r r' r'' u v)

  Succeeds-same :
      (f g : Str → AttestationList Condition → AttestationList Condition) (r : Response Condition)
      (m : Result (Response Condition))
      → ((j : Str) (l : AttestationList Condition) → f j l ≡ g j l)
      → Succeeds f r m
      → Succeeds g r m
  Succeeds-same f g r m h s = rw (fun_ext λ j. fun_ext λ l. h j l) at s

  Succeeds-ok : (r : Response Condition) → Succeeds (λ j l. l) r (ok r)
  Succeeds-ok r = (
    r,
    refl,
    record { at = λ j. on_some-id (lookup j r.image_list); counts = λ j. refl; unchanged = refl },
  )
    where
      on_some-id : (o : Option (AttestationList Condition)) → o ≡ on_some (λ l. l) o
      on_some-id none = refl
      on_some-id (some l) = refl

  add_attestations_lem :
      (img : Str) (t : AttestationType Condition) (r : Response Condition)
      (l : AttestationList Condition)
      → lookup img r.image_list ≡ some l
      → Succeeds (only img (add_type k t)) r (add_attestations k img t r)
  unfolding add_attestations
  add_attestations_lem img t r l h = (
    record r { image_list = insert img (add_type k t l) r.image_list },
    ground arith,
    record {
      at = λ j. ground (arith, lookup-insert img j (add_type k t l) r.image_list, ==_iff img j);
      counts = λ j. ground (arith, count-insert img j (add_type k t l) r.image_list);
      unchanged = refl;
    },
  )

  add_all_types_lem :
      (img : Str) (ts : List (AttestationType Condition)) (r : Response Condition)
      (l : AttestationList Condition)
      → lookup img r.image_list ≡ some l
      → Succeeds (only img (add_types k ts)) r (add_all_types k img ts r)
  unfolding add_all_types add_types
  add_all_types_lem img [] r l h =
      Succeeds-same (λ j l. l) (only img (add_types k [])) r (ok r) (λ j x. ground arith)
        (Succeeds-ok r)
  add_all_types_lem img (t ∷ ts) r l h =
      Succeeds-same (λ j x. only img (add_types k ts) j (only img (add_type k t) j x))
        (only img (add_types k (t ∷ ts))) r _ (λ j x. ground arith)
        (Succeeds-bind (only img (add_type k t)) (only img (add_types k ts)) r
          (add_attestations k img t r) (add_all_types k img ts) (add_attestations_lem img t r l h)
          (λ r' u.
            add_all_types_lem img ts r' (add_type k t l) (ground (arith, u.at img, ==_refl img))))

  -- What one attestation of the policy adds at an image.
  abbrev adds :
      AttestationsInfo Condition → Str → AttestationList Condition → AttestationList Condition
  adds a j l = if wildcard_match a.image_reference j then add_types k a.types l else l

  abbrev adds_each :
      AttestationsInfo Condition
      → List Str
      → Str
      → AttestationList Condition
      → AttestationList Condition
  adds_each a ks j = iterate (count j ks) (adds a j)

  add_to_image_lem :
      (a : AttestationsInfo Condition) (img : Str) (r : Response Condition)
      → 1 ≤ count img (keys r.image_list)
      → Succeeds
          (only img (adds a img))
          r
          (if wildcard_match a.image_reference img then add_all_types k img a.types r else ok r)
  add_to_image_lem a img r h = elim (Option-cases (lookup img r.image_list)) [
    | inl absent ↦ absurd (omega (arith, count-lookup img r.image_list absent))
    | inr (l, present) ↦ elim (Bool-cases (wildcard_match a.image_reference img)) [
      | inl matched ↦ rw matched (
          Succeeds-same (only img (add_types k a.types)) (only img (adds a img)) r
            (add_all_types k img a.types r) (λ j x. rw matched)
            (add_all_types_lem img a.types r l present))
      | inr other ↦ rw other (
          Succeeds-same (λ j x. x) (only img (adds a img)) r (ok r) (λ j x. ground arith)
            (Succeeds-ok r))
    ]
  ]

  adds_each-cons :
      (a : AttestationsInfo Condition) (img : Str) (ks : List Str) (j : Str)
      (x : AttestationList Condition)
      → adds_each a ks j (only img (adds a img) j x) ≡ adds_each a (img ∷ ks) j x
  unfolding count
  adds_each-cons a img ks j x = elim (Bool-cases (img == j)) [
    | inl same ↦
        let p : img ≡ j = (==_iff img j).0 same in
        let q : 1 + count j ks ≡ suc (count j ks) = omega arith in rw (same, q, p)
    | inr other ↦ let q : 0 + count j ks ≡ count j ks = omega arith in rw (other, q)
  ]

  add_to_images_lem :
      (a : AttestationsInfo Condition) (ks : List Str) (r : Response Condition)
      → ((j : Str) → count j ks ≤ count j (keys r.image_list))
      → Succeeds (adds_each a ks) r (add_to_images k a ks r)
  unfolding add_to_images count
  add_to_images_lem a [] r h = Succeeds-ok r
  add_to_images_lem a (img ∷ ks) r h =
      Succeeds-same (λ j x. adds_each a ks j (only img (adds a img) j x)) (adds_each a (img ∷ ks)) r
        _ (adds_each-cons a img ks)
        (Succeeds-bind (only img (adds a img)) (adds_each a ks) r _ (add_to_images k a ks)
          (add_to_image_lem a img r (ground (arith, h img, ==_refl img)))
          (λ r' u. add_to_images_lem a ks r' (λ j. ground (arith, h j, u.counts j))))

  add_types-append :
      (ts us : List (AttestationType Condition)) (l : AttestationList Condition)
      → add_types k (ts ++ us) l ≡ add_types k us (add_types k ts l)
  unfolding add_types
  add_types-append [] us l = refl
  add_types-append (t ∷ ts) us l = add_types-append ts us (add_type k t l)

  abbrev policy :
      List (AttestationsInfo Condition)
      → Str
      → AttestationList Condition
      → AttestationList Condition
  policy as' j l = add_types k (types_for k j as') l

  -- The first attestation of a policy acts on the images in the list, and the rest follows. The
  -- loop visits each of them once.
  policy-cons :
      (a : AttestationsInfo Condition) (as' : List (AttestationsInfo Condition)) (ks : List Str)
      (j : Str)
      → count j ks ≡ 1
      → (x : AttestationList Condition) → policy as' j (adds_each a ks j x) ≡ policy (a ∷ as') j x
  unfolding types_for
  policy-cons a as' ks j once x = rw once (elim (Bool-cases (wildcard_match a.image_reference j)) [
    | inl matched ↦ rw (matched) (rw add_types-append)
    | inr other ↦ rw other
  ])

  on_some-same :
      {A : Type 0} (f g : A → A) (o : Option A)
      → ((x : A) → o ≡ some x → f x ≡ g x)
      → on_some f o ≡ on_some g o
  on_some-same f g none h = refl
  on_some-same f g (some x) h = ap some (h x refl)

  policy-Updates :
      (a : AttestationsInfo Condition) (as' : List (AttestationsInfo Condition)) (ks : List Str)
      (r r' : Response Condition)
      → ((j : Str) → count j ks ≡ count j (keys r.image_list))
      → NodupKeys r.image_list
      → Updates (λ j l. policy as' j (adds_each a ks j l)) r r'
      → Updates (policy (a ∷ as')) r r'
  policy-Updates a as' ks r r' fair h u = record {
    at = λ j.
        u.at j
        ∙ on_some-same (λ l. policy as' j (adds_each a ks j l)) (policy (a ∷ as') j)
            (lookup j r.image_list)
            (λ x found.
              policy-cons a as' ks j
                (omega (arith, fair j, h j, lookup-eq-some-count j x r.image_list found)) x);
    counts = u.counts;
    unchanged = u.unchanged;
  }

  module _ (order : ℕ → List Str → List Str)
      (fair : (n : ℕ) (ks : List Str) (j : Str) → count j (order n ks) ≡ count j ks) where
    -- Whatever orders the loops take, as long as each visits every key once, and if no image stands
    -- twice in the list, the list of attestations is built: the map of each image in it gets the types that the policy asks for there, and nothing else changes.
    pub build_attestation_list_lem :
        (n : ℕ) (as' : List (AttestationsInfo Condition)) (r : Response Condition)
        → NodupKeys r.image_list
        → (r' : Response Condition) × (build_attestation_list k order n as' r ≡ ok r')
          × Updates (λ j. add_types k (types_for k j as')) r r'
    unfolding build_attestation_list
    build_attestation_list_lem n [] r h = unfold types_for add_types in Succeeds-ok r
    build_attestation_list_lem n (a ∷ as') r h =
        let ks = order n (keys r.image_list) in
        let (r1, e, u) =
          add_to_images_lem a ks r (λ j. omega (arith, fair n (keys r.image_list) j)) in
        let (r2, e', v) =
          build_attestation_list_lem (suc n) as' r1 (λ j. omega (arith, h j, u.counts j)) in
        (
          r2,
          rw e e',
          policy-Updates a as' ks r r2 (λ j. omega (arith, fair n (keys r.image_list) j)) h
              (Updates-trans (adds_each a ks) (policy as') r r1 r2 u v),
        )
