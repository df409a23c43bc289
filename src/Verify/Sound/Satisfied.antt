-- ===== src/Verify/Sound/Satisfied.antt =====
-- The evidence behind `verify_attestations`: for every image and every type that is required of
-- it, either a hit of the cache or a look at every referrer of the image.
use notation_aws_verifier.Prelude.{
  Str, ℕ, true, some, List, [], ◌∷◌, ◌≡◌, ◌⊎◌, inl, inr, is_empty, All, In, All-In, arith,
}
use notation_aws_verifier.Prelude.Exec.Keeps.{
  Keeps, Keeps-pure, Keeps-lift, Keeps-wrap, Keeps-if, Keeps-bind, Keeps-map,
}
use notation_aws_verifier.Prelude.Map.{Map, lookup, keys, All-keys}
use notation_aws_verifier.Prelude.Result.{ok}
use notation_aws_verifier.Deps.{Deps, Descriptor, RistrettoLaws, RangeLaws}
use notation_aws_verifier.References.{match_attestations}
use notation_aws_verifier.References.Complete.{IsPresent, match_attestations_iff}
use notation_aws_verifier.Types.{AnyAllConditions, AttestationList}
use notation_aws_verifier.Verify.Attestations.{
  check_all_attestations_for_image, verify_attestation_uncached, verify_attestation, verify_each,
  verify_attestations,
}
use notation_aws_verifier.Verify.Evidence.{Under}
use notation_aws_verifier.Verify.Registry.{RequestVerifier}
use notation_aws_verifier.Verify.Sound.Attestations.{P, Keeps-asked, Keeps-range}
use notation_aws_verifier.Verify.Sound.References.{PlainNames}
use notation_aws_verifier.Verify.Sound.Hits.{Hit}
use notation_aws_verifier.Verify.Sound.Referrers.{
  JudgedIfRequired, Keeps-verify_referrers, Keeps-check_entries,
}

module _ (d : Deps) (laws : RistrettoLaws d.ristretto) (fair : RangeLaws d) (vs : Map d.Verifier)
    (rv : RequestVerifier d) (under : Under d vs rv.trust_policy rv) (names : PlainNames vs) where
  open d use {Info, Condition, Name}

  -- A look at the referrers: the registry listed them for the digest behind the image, every
  -- required type is there, and every referrer with a required type was judged.
  pub record Examined (image : Str) (list : AttestationList Condition) : Type 0 where
    pub ref : Name
    pub parsed : d.parse_name image ≡ ok ref
    pub head_call : ℕ
    pub desc : Descriptor
    pub head : d.head head_call rv.keychain rv.puller ref ≡ ok desc
    pub referrers_call : ℕ
    pub index : d.Index
    pub referrers :
        d.referrers referrers_call rv.keychain rv.puller (d.at_digest ref desc.digest) ≡ ok index
    pub manifests_call : ℕ
    pub manifests : List Descriptor
    pub listed : d.index_manifest manifests_call index ≡ ok manifests
    pub present :
        (t : Str) (cs : List (AnyAllConditions Condition))
        → lookup t list ≡ some cs
        → IsPresent manifests t
    pub judged : All (JudgedIfRequired d laws vs rv under names image ref list) manifests

  abbrev pub Satisfied : Str → AttestationList Condition → Type 0
  Satisfied image list =
      (t : Str) (cs : List (AnyAllConditions Condition))
      → lookup t list ≡ some cs
      → Hit d laws vs rv under names image t cs ⊎ Examined image list

  Keeps-verify_attestation_uncached :
      (image : Str) (list : AttestationList Condition)
      → Keeps (P d laws vs) (verify_attestation_uncached d rv image list) (λ _. Examined image list)
  unfolding verify_attestation_uncached
  Keeps-verify_attestation_uncached image list =
      Keeps-bind _ _ (Keeps-wrap _ _ _ (Keeps-lift _ _ (λ ref e. e))) (λ ref parsed.
        Keeps-bind _ _ (Keeps-wrap _ _ _ (Keeps-asked d laws vs _)) (λ desc head.
          Keeps-bind _ _ (Keeps-wrap _ _ _ (Keeps-asked d laws vs _)) (λ index refs.
            Keeps-bind _ _ (Keeps-asked d laws vs _) (λ manifests listed.
              Keeps-bind _ _ (Keeps-range d laws vs fair list) (λ entries all.
                Keeps-bind _ _ (Keeps-lift _ _ (λ u e. e)) (λ u matched.
                  Keeps-map _ _ _
                    (λ _ judged.
                      examined image list ref parsed desc head index refs manifests listed entries
                        all matched judged)
                    (Keeps-verify_referrers d laws vs rv under names image ref list manifests
                      parsed)))))))
    where
      examined :
          (image : Str) (list : AttestationList Condition) (ref : Name)
          → d.parse_name image ≡ ok ref
          → (desc : Descriptor) → (n : ℕ) × (d.head n rv.keychain rv.puller ref ≡ ok desc)
          → (index : d.Index)
          → (n : ℕ) × (d.referrers n rv.keychain rv.puller (d.at_digest ref desc.digest) ≡ ok index)
          → (manifests : List Descriptor) → (n : ℕ) × (d.index_manifest n index ≡ ok manifests)
          → (entries : AttestationList Condition)
          → ((t : Str) (cs : List (AnyAllConditions Condition))
              → lookup t list ≡ some cs
              → In (t, cs) entries)
          → match_attestations image (keys entries) manifests ≡ ok tt
          → All (JudgedIfRequired d laws vs rv under names image ref list) manifests
          → Examined image list
      examined image list ref parsed desc (n1, e1) index (n2, e2) manifests (n3, e3) entries all
            matched judged =
          record {
            head_call = n1;
            desc = desc;
            head = e1;
            referrers_call = n2;
            index = index;
            referrers = e2;
            manifests_call = n3;
            listed = e3;
            ref = ref;
            parsed = parsed;
            manifests = manifests;
            present = λ t cs found.
                All-keys (IsPresent manifests) entries t cs
                  ((match_attestations_iff image (keys entries) manifests).0 matched)
                  (all t cs found);
            judged = judged;
          }

  Keeps-check_all :
      (image : Str) (list : AttestationList Condition)
      → Keeps
          (P d laws vs)
          (check_all_attestations_for_image d rv image list)
          (λ b. b ≡ true → Satisfied image list)
  unfolding check_all_attestations_for_image
  Keeps-check_all image list = Keeps-bind _ _ (Keeps-range d laws vs fair list) (λ entries all.
      Keeps-map _ _ _
        (λ b hits e t cs found. inl (
          All-In
            (λ (x : Str × List (AnyAllConditions Condition)).
              Hit d laws vs rv under names image x.0 x.1)
            entries (t, cs) (hits e) (all t cs found)))
        (Keeps-check_entries d laws vs rv under names image entries))

  -- An image passes only if each required type is in the cache, or its referrers were examined.
  pub Keeps-verify_attestation :
      (image : Str) (list : AttestationList Condition)
      → Keeps (P d laws vs) (verify_attestation d rv image list) (λ _. Satisfied image list)
  unfolding verify_attestation
  Keeps-verify_attestation image list =
      Keeps-if _ _ _ _
        (λ none_asked.
          Keeps-pure tt (λ t cs found. absurd (nothing_asked list none_asked t cs found)))
        (λ _. Keeps-bind _ _ (Keeps-check_all image list) (λ found hits.
          Keeps-if found _ _ _ (λ e. Keeps-pure tt (hits e))
            (λ _.
              Keeps-map _ _ _ (λ _ ex t cs asked. inr ex)
                (Keeps-verify_attestation_uncached image list))))
    where
      nothing_asked :
          (list : AttestationList Condition)
          → is_empty list ≡ true
          → (t : Str) (cs : List (AnyAllConditions Condition)) → lookup t list ≡ some cs
          → ⊥
      nothing_asked [] h t cs e = unfold lookup in ground arith
      nothing_asked (x ∷ xs) h t cs e = ground arith

  Keeps-verify_each :
      (es : Map (AttestationList Condition))
      → Keeps
          (P d laws vs)
          (verify_each d rv es)
          (λ _. All (λ (e : Str × AttestationList Condition). Satisfied e.0 e.1) es)
  unfolding verify_each
  Keeps-verify_each [] = Keeps-pure tt tt
  Keeps-verify_each ((image, list) ∷ rest) =
      Keeps-bind _ _ (Keeps-wrap _ _ _ (Keeps-verify_attestation image list))
        (λ _ s. Keeps-map _ _ _ (λ _ others. (s, others)) (Keeps-verify_each rest))

  -- If the attestations are verified, every image has what is required of it.
  pub Keeps-verify_attestations :
      (image_list : Map (AttestationList Condition))
      → Keeps (P d laws vs) (verify_attestations d rv image_list) (λ _.
        (image : Str) (list : AttestationList Condition)
        → lookup image image_list ≡ some list
        → Satisfied image list)
  unfolding verify_attestations
  Keeps-verify_attestations image_list =
      Keeps-bind _ _ (Keeps-range d laws vs fair image_list) (λ entries all.
        Keeps-map _ _ _
          (λ _ satisfied image list found.
            All-In (λ (e : Str × AttestationList Condition). Satisfied e.0 e.1) entries
              (image, list) satisfied (all image list found))
          (Keeps-verify_each entries))
