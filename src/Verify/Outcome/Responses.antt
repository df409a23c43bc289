-- ===== src/Verify/Outcome/Responses.antt =====
-- The loops over the images as functions from response to response, which the invariants of the
-- response are proved of.
use notation_aws_verifier.Prelude.{
  Str, codes, suc, ◌++◌, Bool, true, false, not, List, [], ◌∷◌, ◌≡◌, refl, if◌then◌else◌,
}
use notation_aws_verifier.Prelude.Exec.{Exec, pure, lift, wrap, continue, ◌>>=◌}
use notation_aws_verifier.Prelude.Map.{Map}
use notation_aws_verifier.Prelude.Result.{Result, ok, err, map_err}
use notation_aws_verifier.Config.{VerifierConfig}
use notation_aws_verifier.Deps.{Deps}
use notation_aws_verifier.References.{match_image_references}
use notation_aws_verifier.Response.{Response, new_response, build_attestation_list}
use notation_aws_verifier.Types.{ImageInfo, ImageInfos, AttestationsInfo, VerificationRequest}
use notation_aws_verifier.Verify.{
  Building, in_world, update_response, report, new_request_verifier, verify_one, verify_images,
  verify_group, verify_groups, built_or_failed, build_response, check_response, verify_request,
}
use notation_aws_verifier.Verify.Attestations.{verify_attestations}
use notation_aws_verifier.Verify.Images.{verify_image_info}
use notation_aws_verifier.Verify.Registry.{RequestVerifier, range}
use notation_aws_verifier.World.{World, ask}

module _ (d : Deps) where
  open d use {Info, Condition, Keychain, info_string, info_name, range_order}

  module _ (rv : RequestVerifier d) (refs : List Str) where
    unfoldable pub one_from :
        Str → ImageInfo Info → Response Condition → Exec (World d) (Response Condition)
    one_from kind image r =
        if not (match_image_references d refs (info_string image.image.info)) then pure r else do
          result ←
              wrap
                (λ e.
                  codes "failed to verify "
                  ++ (kind ++ (codes " " ++ (info_name image.image.info ++ (codes ": " ++ e)))))
                (verify_image_info d rv image)
          pure (report d rv refs (info_string image.image.info) result r)

    unfoldable pub images_from :
        Str → Map (ImageInfo Info) → Response Condition → Exec (World d) (Response Condition)
    unfolding one_from
    images_from kind [] r = pure r
    images_from kind ((name, image) ∷ rest) r = do
      r' ← one_from kind image r
      images_from kind rest r'

    unfoldable pub group_from :
        Str → Map (ImageInfo Info) → Response Condition → Exec (World d) (Response Condition)
    unfolding images_from
    group_from kind images r = do entries ← range d images; images_from kind entries r

    unfoldable pub groups_from :
        ImageInfos Info → Response Condition → Exec (World d) (Response Condition)
    unfolding group_from
    groups_from images r = do
      r1 ← group_from (codes "container") images.containers r
      r2 ← group_from (codes "init container") images.init_containers r1
      group_from (codes "ephemeral container") images.ephemeral_containers r2

  unfoldable pub build_from :
      List (AttestationsInfo Condition) → Response Condition → Exec (World d) (Response Condition)
  build_from attestations r = do
    n ← ask d ok
    wrap (λ e. codes "failed to create attestation list: " ++ e)
        (lift (build_attestation_list d.kyverno range_order n attestations r))

  unfoldable pub check_from :
      RequestVerifier d → Response Condition → Exec (World d) (Response Condition)
  check_from rv r = do
    checked ←
        wrap (λ e. codes "failed to verify attestations: " ++ e)
          (verify_attestations d rv r.image_list)
    pure r

  unfoldable pub request_from :
      VerifierConfig Keychain
      → VerificationRequest Info Condition
      → Exec (World d) (Response Condition)
  unfolding groups_from build_from check_from
  request_from v req = do
    rv ← new_request_verifier d v req.trust_policy
    verified ← groups_from rv req.image_references req.images (new_response d.kyverno)
    built ← build_from req.attestations verified
    check_from rv built

  -- The response that a success leaves is its value; that of an error is forgotten.
  abbrev pub forget : Result (Unit {0}) × Building d → Result (Response Condition) × World d
  forget (ok u, (w, r)) = (ok r, w)
  forget (err e, (w, r)) = (err e, w)

  -- A step on the response does what the function from response to response does.
  abbrev Does :
      Exec (Building d) (Unit {0})
      → (Response Condition → Exec (World d) (Response Condition))
      → Type 0
  Does m f = (w : World d) (r : Response Condition) → forget (m (w, r)) ≡ f r w

  Does-bind :
      (m n : Exec (Building d) (Unit {0}))
      (f g : Response Condition → Exec (World d) (Response Condition))
      → Does m f
      → Does n g
      → Does (m >>= λ _. n) (λ r. (f r >>= g))
  unfolding ◌>>=◌
  Does-bind m n f g hm hn w r = go (m (w, r)) (f r w) (hm w r)
    where
      go :
          (x : Result (Unit {0}) × Building d) (y : Result (Response Condition) × World d)
          → forget x ≡ y
          → forget (continue x.0 (λ _. n) x.1) ≡ continue y.0 g y.1
      go (ok u, (w', r')) y e = rw (← e) (hn w' r')
      go (err e', (w', r')) y e = rw (← e) refl

  -- A step in the world first.
  Does-in_world :
      {A : Type 0} (m : Exec (World d) A) (n : A → Exec (Building d) (Unit {0}))
      (g : A → Response Condition → Exec (World d) (Response Condition))
      → ((a : A) → Does (n a) (g a))
      → Does (in_world m >>= n) (λ r. (m >>= λ a. g a r))
  unfolding ◌>>=◌ in_world
  Does-in_world {A = A} m n g h w r = go (m w)
    where
      go :
          (x : Result A × World d)
          → forget (continue x.0 n (x.1, r)) ≡ continue x.0 (λ a. g a r) x.1
      go (ok a, w') = h a w' r
      go (err e, w') = refl

  module _ (rv : RequestVerifier d) (refs : List Str) where
    abbrev failing : Str → ImageInfo Info → Str → Str
    failing kind image e =
        codes "failed to verify "
        ++ (kind ++ (codes " " ++ (info_name image.image.info ++ (codes ": " ++ e))))

    Does-verify_one :
        (kind : Str) (image : ImageInfo Info)
        → Does (verify_one d rv refs kind image) (one_from rv refs kind image)
    unfolding verify_one one_from ◌>>=◌ wrap in_world update_response
    Does-verify_one kind image w r =
        by_match (not (match_image_references d refs (info_string image.image.info)))
      where
        by_result :
            (x : Result (ImageInfo Info) × World d)
            → forget (
                continue
                  (map_err (failing kind image) x.0)
                  (λ result.
                    update_response (report d rv refs (info_string image.image.info) result))
                  (x.1, r))
              ≡ continue
                  (map_err (failing kind image) x.0)
                  (λ result. pure (report d rv refs (info_string image.image.info) result r))
                  x.1
        by_result (ok result, w') = refl
        by_result (err e, w') = refl

        by_match :
            (b : Bool)
            → forget (
                (if b
                    then pure tt
                    else (wrap (failing kind image) (in_world (verify_image_info d rv image))
                        >>= λ result.
                            update_response
                              (report d rv refs (info_string image.image.info) result)))
                  (w, r))
              ≡ (if b
                    then pure r
                    else (wrap (failing kind image) (verify_image_info d rv image) >>= λ result.
                        pure (report d rv refs (info_string image.image.info) result r)))
                  w
        by_match true = refl
        by_match false = by_result (verify_image_info d rv image w)

    Does-verify_images :
        (kind : Str) (es : Map (ImageInfo Info))
        → Does (verify_images d rv refs kind es) (images_from rv refs kind es)
    unfolding verify_images images_from
    Does-verify_images kind [] w r = refl
    Does-verify_images kind ((name, image) ∷ rest) w r =
        Does-bind _ _ (one_from rv refs kind image) (images_from rv refs kind rest)
          (Does-verify_one kind image) (Does-verify_images kind rest) w r

    Does-verify_group :
        (kind : Str) (images : Map (ImageInfo Info))
        → Does (verify_group d rv refs kind images) (group_from rv refs kind images)
    unfolding verify_group group_from
    Does-verify_group kind images =
        Does-in_world (range d images) _ (λ es. images_from rv refs kind es)
          (Does-verify_images kind)

    Does-verify_groups :
        (images : ImageInfos Info)
        → Does (verify_groups d rv refs images) (groups_from rv refs images)
    unfolding verify_groups groups_from
    Does-verify_groups images =
        Does-bind _ _ (group_from rv refs (codes "container") images.containers) _
          (Does-verify_group (codes "container") images.containers)
          (Does-bind _ _ (group_from rv refs (codes "init container") images.init_containers)
            (group_from rv refs (codes "ephemeral container") images.ephemeral_containers)
            (Does-verify_group (codes "init container") images.init_containers)
            (Does-verify_group (codes "ephemeral container") images.ephemeral_containers))

  Does-build :
      (attestations : List (AttestationsInfo Condition))
      → Does (build_response d attestations) (build_from attestations)
  unfolding build_response build_from ◌>>=◌ ask wrap
  Does-build attestations w r =
      go (build_attestation_list d.kyverno range_order w.calls attestations r)
    where
      go :
          (x : Result (Response Condition))
          → forget (
              built_or_failed d
                (record w { calls = suc w.calls })
                r
                (map_err (λ e. codes "failed to create attestation list: " ++ e) x))
            ≡ (
              map_err (λ e. codes "failed to create attestation list: " ++ e) x,
              record w { calls = suc w.calls },
            )
      go (ok b) = refl
      go (err e) = refl

  Does-check : (rv : RequestVerifier d) → Does (check_response d rv) (check_from rv)
  unfolding check_response check_from ◌>>=◌ wrap in_world
  Does-check rv w r = go (verify_attestations d rv r.image_list w)
    where
      go :
          (x : Result (Unit {0}) × World d)
          → forget (map_err (λ e. codes "failed to verify attestations: " ++ e) x.0, (x.1, r))
            ≡ continue
                (map_err (λ e. codes "failed to verify attestations: " ++ e) x.0)
                (λ _. pure r)
                x.1
      go (ok u, w') = refl
      go (err e, w') = refl

  pub Does-verify_request :
      (v : VerifierConfig Keychain) (req : VerificationRequest Info Condition) (w : World d)
      → forget (verify_request d v req (w, new_response d.kyverno)) ≡ request_from v req w
  unfolding verify_request request_from
  Does-verify_request v req w =
      Does-in_world (new_request_verifier d v req.trust_policy) _ _
        (λ rv.
          Does-bind _ _ (groups_from rv req.image_references req.images) _
            (Does-verify_groups rv req.image_references req.images)
            (Does-bind _ _ (build_from req.attestations) (check_from rv)
              (Does-build req.attestations) (Does-check rv)))
        w (new_response d.kyverno)
