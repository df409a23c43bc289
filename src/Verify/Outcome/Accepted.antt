-- ===== src/Verify/Outcome/Accepted.antt =====
-- A request that is answered with "verified": every selected image and every attestation that
-- is required of it was verified, and nothing else is patched.
use notation_aws_verifier.Prelude.{Str, true, Option, none, some, [], ◌≡◌, ◌≢◌, refl, All, arith}
use notation_aws_verifier.Prelude.Map.{Map, lookup}
use notation_aws_verifier.Deps.{Deps, RistrettoLaws, KyvernoLaws}
use notation_aws_verifier.Response.{Response}
use notation_aws_verifier.Types.{AttestationList}
use notation_aws_verifier.Verify.Evidence.{Under}
use notation_aws_verifier.Verify.Registry.{RequestVerifier}
use notation_aws_verifier.Verify.Outcome.Progress.{Backed, Progress}
use notation_aws_verifier.Verify.Sound.Attestations.{P}
use notation_aws_verifier.Prelude.Exec.Keeps.{Keeps, Keeps-pure, Keeps-wrap, Keeps-bind, Keeps-map}
use notation_aws_verifier.Deps.{RangeLaws}
use notation_aws_verifier.Verify.Sound.References.{PlainNames}
use notation_aws_verifier.Verify.{Building, verify_request, verify_images_and_attestations, respond}
use notation_aws_verifier.Config.{VerifierConfig}
use notation_aws_verifier.Prelude.Exec.Keeps.{Returns, Keeps-lift}
use notation_aws_verifier.Prelude.Result.{Result, ok, err}
use notation_aws_verifier.References.{get_trust_policy}
use notation_aws_verifier.Response.{new_response, build_attestation_list, verification_succeeded}
use notation_aws_verifier.Response.Build.{build_attestation_list_lem, on_some}
use notation_aws_verifier.Response.Required.{types_for, add_types}
use notation_aws_verifier.Types.{VerificationRequest, ResponseData}
use mathlib.Core.Bool.{false≢true}
use notation_aws_verifier.Prelude.Map.{count}
use notation_aws_verifier.Prelude.{ℕ, arith}
use notation_aws_verifier.Response.{verification_failed}
use notation_aws_verifier.Types.{AttestationsInfo}
use notation_aws_verifier.Prelude.{List}
use notation_aws_verifier.World.{World}
use notation_aws_verifier.Verify.Outcome.Responses.{
  build_from, check_from, request_from, forget, Does-verify_request,
}
use notation_aws_verifier.Verify.Outcome.Groups.{
  GroupsChecked-Extends, GroupsChecked, Keeps-groups_from,
}
use notation_aws_verifier.Verify.Sound.Attestations.{Keeps-asked}
use notation_aws_verifier.Verify.Sound.Satisfied.{Satisfied, Keeps-verify_attestations}
use notation_aws_verifier.Verify.Outcome.Resolved.{Keeps-new_request_verifier}

module _ (d : Deps) (laws : RistrettoLaws d.ristretto) (fair : RangeLaws d)
    (kl : KyvernoLaws d.kyverno) (vs : Map d.Verifier) (names : PlainNames vs) where
  open d use {Info, Condition, Keychain, info_string, info_digest, range_order}

  -- What a response to a request shows when it says "verified".
  pub record Accepted (req : VerificationRequest Info Condition) (rv : RequestVerifier d)
      (under : Under d vs rv.trust_policy rv) (resp : ResponseData) : Type 0 where
    pub policy : rv.trust_policy ≡ get_trust_policy d req.trust_policy
    pub built : Response Condition
    pub results : resp.results ≡ built.response_data.results
    pub message : resp.error_message ≡ []
    -- every selected image of the three groups is verified, and skipped by the policy or patched
    pub images :
        GroupsChecked d laws fair kl vs names rv under req.image_references req.images built
    -- nothing but verified images is patched
    pub backed : All (Backed d laws kl vs names rv under) resp.results
    -- every patched image has what the policy requires of it
    pub attested :
        (image : Str)
        → lookup image built.image_list ≢ none
        → Satisfied d laws fair vs rv under names image
            (add_types d.kyverno (types_for d.kyverno image req.attestations) [])

  abbrev pub IsAccepted : VerificationRequest Info Condition → ResponseData → Type 0
  IsAccepted req resp =
      (rv : RequestVerifier d) × (under : Under d vs rv.trust_policy rv) × Accepted req rv under
        resp

  on_some-ne-none :
      {A B : Type 0} (f : A → B) (o : Option A) (p : Option B)
      → p ≡ on_some f o
      → o ≢ none
      → p ≢ none
  on_some-ne-none f none p e h = absurd (h refl)
  on_some-ne-none f (some a) p e h = λ q. ground arith

  on_some-found :
      (f : AttestationList Condition → AttestationList Condition)
      (o p : Option (AttestationList Condition))
      → p ≡ on_some f o
      → ((l : AttestationList Condition) → o ≡ some l → l ≡ [])
      → p ≢ none
      → p ≡ some (f [])
  on_some-found f none p e h n = absurd (n e)
  on_some-found f (some l) p e h n = rw (← (h l refl)) e

  Accepted-of :
      (req : VerificationRequest Info Condition) (rv : RequestVerifier d)
      (under : Under d vs rv.trust_policy rv)
      → rv.trust_policy ≡ get_trust_policy d req.trust_policy
      → (r built : Response Condition) (n : ℕ)
      → Progress d laws kl vs names rv under (new_response d.kyverno) r
      → GroupsChecked d laws fair kl vs names rv under req.image_references req.images r
      → build_attestation_list d.kyverno range_order n req.attestations r ≡ ok built
      → ((image : Str) (list : AttestationList Condition)
          → lookup image built.image_list ≡ some list
          → Satisfied d laws fair vs rv under names image list)
      → Accepted req rv under (verification_succeeded d.kyverno [] built)
  unfolding verification_succeeded
  Accepted-of req rv under policy r built n progress checked e satisfied =
      let start = new_response d.kyverno in
      let (r', e', u) =
        build_attestation_list_lem d.kyverno range_order fair.count_order n req.attestations r
          (progress.nodup (unfold new_response count in λ j. omega arith)) in
      let p : built ≡ r' = cc in
      rw p (record {
        policy = policy;
        built = r';
        results = refl;
        message = refl;
        images =
            GroupsChecked-Extends d laws fair kl vs names rv under req.image_references req.images r
              r'
              (record {
                grows = λ op i. rw u.unchanged i;
                listed = λ j h. on_some-ne-none _ (lookup j r.image_list) _ (u.at j) h;
              })
              checked;
        backed = rw u.unchanged (progress.backed (unfold new_response in tt));
        attested = λ image h. satisfied image _ (
            rw p (
              on_some-found _ (lookup image r.image_list) _ (u.at image)
                (progress.none_required (unfold new_response lookup in λ j l x. ground arith) image)
                h));
      })

  Keeps-check_from :
      (rv : RequestVerifier d) (under : Under d vs rv.trust_policy rv) (built : Response Condition)
      → Keeps (P d laws vs) (check_from d rv built) (λ r.
        (built ≡ r)
        × ((image : Str) (list : AttestationList Condition)
            → lookup image built.image_list ≡ some list
            → Satisfied d laws fair vs rv under names image list))
  unfolding check_from
  Keeps-check_from rv under built =
      Keeps-bind _ _
        (Keeps-wrap _ _ _
          (Keeps-verify_attestations d laws fair vs rv under names built.image_list))
        (λ _ satisfied. Keeps-pure built (refl, satisfied))

  Keeps-build_from :
      (attestations : List (AttestationsInfo Condition)) (r : Response Condition)
      → Keeps (P d laws vs) (build_from d attestations r) (λ built.
        (n : ℕ) × (build_attestation_list d.kyverno range_order n attestations r ≡ ok built))
  unfolding build_from
  Keeps-build_from attestations r =
      Keeps-bind _ _ (Keeps-asked d laws vs ok)
        (λ n _. Keeps-wrap _ _ _ (Keeps-lift _ _ (λ built e. (n, e))))

  Keeps-request_from :
      (v : VerifierConfig Keychain) (req : VerificationRequest Info Condition)
      → Keeps
          (P d laws vs)
          (request_from d v req)
          (λ r. IsAccepted req (verification_succeeded d.kyverno [] r))
  unfolding request_from
  Keeps-request_from v req =
      Keeps-bind _ _ (Keeps-new_request_verifier d laws fair vs v req.trust_policy)
        (λ rv (policy, under).
          Keeps-bind _ _
            (Keeps-groups_from d laws fair kl vs names rv under req.image_references req.images
              (new_response d.kyverno))
            (λ r (progress, checked).
              Keeps-bind _ _ (Keeps-build_from req.attestations r) (λ built (n, e).
                Keeps-map _ _ _
                  (λ last (same, satisfied). (
                    rv,
                    under,
                    Accepted-of req rv under policy r last n progress checked (rw same at e)
                        (rw same at satisfied),
                  ))
                  (Keeps-check_from rv under built))))

  abbrev Closed : VerificationRequest Info Condition → Result (Unit {0}) × Building d → Type 0
  Closed req (o, (w, r)) =
      P d laws vs w × ((respond d o r).verified ≡ true → IsAccepted req (respond d o r))

  -- Behind the steps on the response, as behind the function from response to response.
  accept_respond :
      (req : VerificationRequest Info Condition) (x : Result (Unit {0}) × Building d)
      (y : Result (Response Condition) × World d)
      → forget d x ≡ y
      → P d laws vs y.1
      → Returns (λ b. IsAccepted req (verification_succeeded d.kyverno [] b)) y.0
      → Closed req x
  unfolding verification_failed
  accept_respond req (ok u, (w, r)) y e p q = (rw (← e) at p, λ h. rw (← e) at q)
  accept_respond req (err msg, (w, r)) y e p q = ((rw (← e) at p), λ h. absurd (false≢true h))

  closed :
      (v : VerifierConfig Keychain) (req : VerificationRequest Info Condition) (w : World d)
      → P d laws vs w
      → Closed req (verify_request d v req (w, new_response d.kyverno))
  closed v req w p =
      accept_respond req _ (request_from d v req w) (Does-verify_request d v req w)
        ((Keeps-request_from v req).at w p) ((Keeps-request_from v req).returns w p)

  -- Whatever happens, the cache stays sound; and a response that says "verified" is accepted.
  pub Keeps-verify_images_and_attestations :
      (v : VerifierConfig Keychain) (req : VerificationRequest Info Condition)
      → Keeps
          (P d laws vs)
          (verify_images_and_attestations d v req)
          (λ resp. resp.verified ≡ true → IsAccepted req resp)
  unfolding verify_images_and_attestations
  Keeps-verify_images_and_attestations v req = record {
    at = λ w p. (closed v req w p).0;
    returns = λ w p. (closed v req w p).1;
  }
