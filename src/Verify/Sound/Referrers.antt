-- ===== src/Verify/Sound/Referrers.antt =====
-- The evidence behind each referrer whose type is required.
use notation_aws_verifier.Prelude.{
  Str, true, false, Option, none, some, List, [], ◌∷◌, ◌≡◌, ◌≢◌, ◌⊎◌, inl, inr, refl, is_empty,
  eq-nil, ne-nil, All, arith, if◌then◌else◌,
}
use notation_aws_verifier.Prelude.Exec.{pure, wrap}
use notation_aws_verifier.Prelude.Exec.Keeps.{
  Keeps, Keeps-pure, Keeps-wrap, Keeps-if, Keeps-bind, Keeps-map,
}
use notation_aws_verifier.Prelude.Map.{Map, lookup}
use notation_aws_verifier.Prelude.Result.{ok}
use notation_aws_verifier.Cache.Sound.{OnSome, Keeps-get_attestation, Keeps-add_attestation}
use notation_aws_verifier.Deps.{Deps, Descriptor, RistrettoLaws}
use notation_aws_verifier.References.{get_reference}
use notation_aws_verifier.Types.{AnyAllConditions, AttestationList}
use notation_aws_verifier.Verify.Attestations.{
  verify_conditions, verify_referrer_uncached, verify_required, verify_referrers, check_entries,
}
use notation_aws_verifier.Verify.Evidence.{
  NotationVerified, ConditionsHold, Under, ImageOk, AttestationOk,
}
use notation_aws_verifier.Verify.Registry.{RequestVerifier}
use notation_aws_verifier.Verify.Sound.References.{PlainNames, Keeps-verify_references}
use notation_aws_verifier.Verify.Sound.Hits.{Hit, create_attestation_key-Hit}
use notation_aws_verifier.Verify.Sound.Attestations.{P, Keeps-verify_conditions}

module _ (d : Deps) (laws : RistrettoLaws d.ristretto) (vs : Map d.Verifier)
    (rv : RequestVerifier d) (under : Under d vs rv.trust_policy rv) (names : PlainNames vs) where
  open d use {Info, Condition, Name}

  abbrev Found : Str → Str → List (AnyAllConditions Condition) → Type 0
  Found = Hit d laws vs rv under names

  -- A referrer with a required type: in the cache, skipped by the trust policy, or verified.
  abbrev pub Judged : Str → Name → Descriptor → List (AnyAllConditions Condition) → Type 0
  Judged image ref r cs =
      Found image r.artifact_type cs
      ⊎ NotationVerified d rv (get_reference d r.digest ref) []
      ⊎ AttestationOk d vs rv.trust_policy image r.artifact_type cs

  Keeps-condition_step :
      (ref : Name) (r : Descriptor) (cs : List (AnyAllConditions Condition)) (f : Str → Str)
      → Keeps
          (P d laws vs)
          (if is_empty cs then pure tt else wrap f (verify_conditions d rv ref r cs))
          (λ _. cs ≢ [] → ConditionsHold d rv ref r cs)
  Keeps-condition_step ref r cs f =
      Keeps-if _ _ _ _
        (λ none_asked. Keeps-pure tt (λ some_asked. absurd (some_asked (eq-nil cs none_asked))))
        (λ _.
          Keeps-map _ _ _ (λ _ hold _. hold)
            (Keeps-wrap _ _ _ (Keeps-verify_conditions d laws vs rv ref r cs)))

  Keeps-verify_referrer_uncached :
      (image : Str) (ref : Name) (r : Descriptor) (cs : List (AnyAllConditions Condition))
      → d.parse_name image ≡ ok ref
      → Keeps
          (P d laws vs)
          (verify_referrer_uncached d rv image ref r cs)
          (λ _. Judged image ref r cs)
  unfolding verify_referrer_uncached
  Keeps-verify_referrer_uncached image ref r cs parsed =
      Keeps-bind _ _
        (Keeps-wrap _ _ _ (Keeps-verify_references d laws vs rv (get_reference d r.digest ref)))
        (λ digest verified.
          Keeps-if _ _ _ _
            (λ skipped. Keeps-pure tt (inr (inl (rw (eq-nil digest skipped) at verified))))
            (λ found. Keeps-bind _ _ (Keeps-condition_step ref r cs _) (λ _ hold.
              let evidence : AttestationOk d vs rv.trust_policy image r.artifact_type cs =
                (rv, under, ref, parsed, r, refl, digest, verified, ne-nil digest found, hold) in
              Keeps-map _ _ _ (λ _ _. inr (inr evidence))
                (Keeps-wrap _ _ _ (
                  Keeps-add_attestation d laws (ImageOk d vs) (AttestationOk d vs) vs
                    rv.verifier.cache rv.trust_policy image r.artifact_type cs evidence)))))

  -- A referrer whose type is required was judged.
  abbrev pub JudgedIfRequired : Str → Name → AttestationList Condition → Descriptor → Type 0
  JudgedIfRequired image ref list r = OnSome (Judged image ref r) (lookup r.artifact_type list)

  Keeps-verify_required :
      (image : Str) (ref : Name) (r : Descriptor) (o : Option (List (AnyAllConditions Condition)))
      → d.parse_name image ≡ ok ref
      → Keeps
          (P d laws vs)
          (verify_required d rv image ref r o)
          (λ _. OnSome (Judged image ref r) o)
  Keeps-verify_required image ref r none parsed = Keeps-pure tt tt
  Keeps-verify_required image ref r (some cs) parsed =
      Keeps-bind _ _
        (Keeps-get_attestation d laws (ImageOk d vs) (AttestationOk d vs) vs rv.verifier.cache
          rv.trust_policy image r.artifact_type cs)
        (λ cached hit.
          Keeps-if cached _ _ _
            (λ e. Keeps-pure tt (
              inl (
                create_attestation_key-Hit d laws vs rv under names image r.artifact_type cs
                  (hit e))))
            (λ _. Keeps-verify_referrer_uncached image ref r cs parsed))

  pub Keeps-verify_referrers :
      (image : Str) (ref : Name) (list : AttestationList Condition) (rs : List Descriptor)
      → d.parse_name image ≡ ok ref
      → Keeps
          (P d laws vs)
          (verify_referrers d rv image ref list rs)
          (λ _. All (JudgedIfRequired image ref list) rs)
  unfolding verify_referrers
  Keeps-verify_referrers image ref list [] parsed = Keeps-pure tt tt
  Keeps-verify_referrers image ref list (r ∷ rs) parsed =
      Keeps-bind _ _ (Keeps-verify_required image ref r (lookup r.artifact_type list) parsed)
        (λ _ judged.
          Keeps-map _ _ _ (λ _ rest. (judged, rest))
            (Keeps-verify_referrers image ref list rs parsed))

  pub Keeps-check_entries :
      (image : Str) (es : AttestationList Condition)
      → Keeps (P d laws vs) (check_entries d rv image es) (λ b.
        b ≡ true → All (λ (e : Str × List (AnyAllConditions Condition)). Found image e.0 e.1) es)
  unfolding check_entries
  Keeps-check_entries image [] = Keeps-pure true (λ _. tt)
  Keeps-check_entries image ((t, cs) ∷ rest) =
      Keeps-bind _ _
        (Keeps-get_attestation d laws (ImageOk d vs) (AttestationOk d vs) vs rv.verifier.cache
          rv.trust_policy image t cs)
        (λ found hit.
          Keeps-if found _ _ _
            (λ e.
              Keeps-map _ _ _
                (λ b others all. (
                  create_attestation_key-Hit d laws vs rv under names image t cs (hit e),
                  others all,
                ))
                (Keeps-check_entries image rest))
            (λ _. Keeps-pure false (λ f. absurd (ground arith))))
