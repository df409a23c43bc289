-- ===== src/Verify.antt =====
-- internal/verifier/verify.go: the verification of a request, from the trust policy to the
-- response.
pub mod Registry
pub mod Images
pub mod Attestations
pub mod Evidence
pub mod Sound
pub mod Outcome
use notation_aws_verifier.Prelude.{
  Str, codes, suc, ◌++◌, Bool, not, Option, List, [], ◌∷◌, is_empty, if◌then◌else◌,
}
use notation_aws_verifier.Prelude.Exec.{Exec, pure, lift, wrap, attempt, ◌>>=◌}
use notation_aws_verifier.Prelude.Map.{Map}
use notation_aws_verifier.Prelude.Result.{Result, ok, err, map_err}
use notation_aws_verifier.Auth.{get_keychain}
use notation_aws_verifier.Config.{VerifierConfig}
use notation_aws_verifier.Deps.{Deps}
use notation_aws_verifier.Factory.{get_verifier}
use notation_aws_verifier.References.{get_trust_policy, match_image_references}
use notation_aws_verifier.Response.{
  Response, new_response, add_image, build_attestation_list, verification_failed,
  verification_succeeded,
}
use notation_aws_verifier.Types.{
  ImageInfo, ImageInfos, AttestationsInfo, VerificationRequest, ResponseData,
}
use notation_aws_verifier.World.{World, ask}
use Attestations.{verify_attestations}
use Images.{verify_image_info}
use Registry.{RequestVerifier, range, get_plugin_config, get_remote_opts}

-- What one request works on: the world, and the response under construction.
abbrev pub Building : Deps → Type 0
Building d = World d × Response d.Condition

module _ {d : Deps} where
  -- A step that does not look at the response.
  unfoldable pub in_world : {A : Type 0} → Exec (World d) A → Exec (Building d) A
  in_world m (w, r) = let (o, w') = m w in (o, (w', r))

  unfoldable pub update_response :
      (Response d.Condition → Response d.Condition) → Exec (Building d) (Unit {0})
  update_response f (w, r) = (ok tt, (w, f r))

module _ (d : Deps) where
  open d use {Info, Condition, Keychain, info_string, info_name, info_digest, range_order}

  -- What is resolved once for a request.
  unfoldable pub new_request_verifier :
      VerifierConfig Keychain → Str → Exec (World d) (RequestVerifier d)
  new_request_verifier v request_policy = do
    notation_verifier ←
        wrap (λ e. codes "failed to create notation verifier: " ++ e)
          (get_verifier d request_policy)
    keychain ←
        wrap (λ e. codes "failed to get remote options: failed to retrieve credentials: " ++ e)
          (get_keychain d v)
    puller ← wrap (λ e. codes "failed to get remote options: " ++ e) (get_remote_opts d keychain)
    plugin_config ← get_plugin_config d v
    pure (record {
      verifier = v;
      notation_verifier = notation_verifier;
      trust_policy = get_trust_policy d request_policy;
      keychain = keychain;
      puller = puller;
      plugin_config = plugin_config;
    })

  module _ (rv : RequestVerifier d) (refs : List Str) where
    -- An image that the trust policy skips has no digest and is not reported.
    abbrev pub report : Str → ImageInfo Info → Response Condition → Response Condition
    report image_ref result r =
        if is_empty (info_digest result.image.info)
        then r
        else add_image d.kyverno image_ref result r

    -- The body of the loop over the images of a group.
    unfoldable pub verify_one : Str → ImageInfo Info → Exec (Building d) (Unit {0})
    unfolding in_world update_response
    verify_one kind image =
        if not (match_image_references d refs (info_string image.image.info)) then pure tt else do
          result ←
              wrap
                (λ e.
                  codes "failed to verify "
                  ++ (kind ++ (codes " " ++ (info_name image.image.info ++ (codes ": " ++ e)))))
                (in_world (verify_image_info d rv image))
          update_response (report (info_string image.image.info) result)

    unfoldable pub verify_images : Str → Map (ImageInfo Info) → Exec (Building d) (Unit {0})
    unfolding verify_one
    verify_images kind [] = pure tt
    verify_images kind ((name, image) ∷ rest) = do
      verified ← verify_one kind image
      verify_images kind rest

    unfoldable pub verify_group : Str → Map (ImageInfo Info) → Exec (Building d) (Unit {0})
    unfolding verify_images in_world
    verify_group kind images = do entries ← in_world (range d images); verify_images kind entries

    unfoldable pub verify_groups : ImageInfos Info → Exec (Building d) (Unit {0})
    unfolding verify_group
    verify_groups images = do
      containers ← verify_group (codes "container") images.containers
      init_containers ← verify_group (codes "init container") images.init_containers
      verify_group (codes "ephemeral container") images.ephemeral_containers

  abbrev pub built_or_failed :
      World d → Response Condition → Result (Response Condition) → Result (Unit {0}) × Building d
  built_or_failed w r (ok built) = (ok tt, (w, built))
  built_or_failed w r (err e) = (err e, (w, r))

  -- `BuildAttestationList` on the response. Behind an error its image list is not read again.
  unfoldable pub build_response : List (AttestationsInfo Condition) → Exec (Building d) (Unit {0})
  build_response attestations (w, r) =
      built_or_failed (record w { calls = suc w.calls }) r
        (map_err (λ e. codes "failed to create attestation list: " ++ e)
          (build_attestation_list d.kyverno range_order w.calls attestations r))

  -- The attestations of the images that the response lists.
  unfoldable pub check_response : RequestVerifier d → Exec (Building d) (Unit {0})
  unfolding in_world
  check_response rv (w, r) =
      wrap (λ e. codes "failed to verify attestations: " ++ e)
        (in_world (verify_attestations d rv r.image_list)) (w, r)

  -- Every early return of `verifyImagesAndAttestations` is a failure here, with the message that
  -- the source hands to `VerificationFailed`, and leaves the response as far as it had come.
  unfoldable pub verify_request :
      VerifierConfig Keychain → VerificationRequest Info Condition → Exec (Building d) (Unit {0})
  unfolding new_request_verifier verify_groups build_response check_response in_world
  verify_request v req = do
    rv ← in_world (new_request_verifier v req.trust_policy)
    verified ← verify_groups rv req.image_references req.images
    built ← build_response req.attestations
    check_response rv

  -- `VerificationSucceeded("")`, or `VerificationFailed` with the message.
  abbrev pub respond : Result (Unit {0}) → Response Condition → ResponseData
  respond (ok u) r = verification_succeeded d.kyverno [] r
  respond (err msg) r = verification_failed d.kyverno msg r

  unfoldable pub verify_images_and_attestations :
      VerifierConfig Keychain → VerificationRequest Info Condition → Exec (World d) ResponseData
  unfolding verify_request
  verify_images_and_attestations v req w =
      let (outcome, (w', r)) = verify_request v req (w, new_response d.kyverno) in
      (ok (respond outcome r), w')
