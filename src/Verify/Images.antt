-- ===== src/Verify/Images.antt =====
-- The verification of one artifact and of one image in internal/verifier/verify.go.
use notation_aws_verifier.Prelude.{
  Str, codes, ◌++◌, Option, none, some, List, [], ◌∷◌, is_empty, if◌then◌else◌,
}
use notation_aws_verifier.Prelude.Exec.{Exec, pure, lift, wrap, ◌>>=◌}
use notation_aws_verifier.Prelude.Result.{Result, ok, err}
use notation_aws_verifier.Cache.{get_image, add_image}
use notation_aws_verifier.Deps.{Deps, VerifyOptions}
use notation_aws_verifier.Types.{Image, ImageInfo}
use notation_aws_verifier.Verify.Registry.{RequestVerifier, parse_reference_and_resolve_digest}
use notation_aws_verifier.World.{World, ask}

-- The errors among the outcomes, in order.
unfoldable pub outcome_errors : List (Option Str) → List Str
outcome_errors [] = []
outcome_errors (none ∷ os) = outcome_errors os
outcome_errors (some e ∷ os) = e ∷ outcome_errors os

-- `errors.Join`: a line for each error.
unfoldable pub join_errors : List Str → Str
join_errors [] = []
join_errors (e ∷ []) = e
join_errors (e ∷ e' ∷ es) = e ++ (codes "\n" ++ join_errors (e' ∷ es))

-- The digest, unless some outcome has an error.
unfoldable pub check_outcomes : Str → List (Option Str) → Result Str
unfolding outcome_errors join_errors
check_outcomes digest outcomes =
    let errs = outcome_errors outcomes in
    if is_empty errs then ok digest else err (join_errors errs)

module _ (d : Deps) (rv : RequestVerifier d) where
  open d use {Info, Reference, reference_string, info_string, with_digest, notation_verify}

  abbrev pub verify_options : Reference → VerifyOptions
  verify_options reference = record {
    artifact_reference = reference_string reference;
    max_signature_attempts = rv.verifier.max_signature_attempts;
    plugin_config = rv.plugin_config;
  }

  unfoldable pub verify_references : Str → Exec (World d) Str
  unfolding check_outcomes
  verify_references image = do
    (repo, reference) ←
        wrap (λ e. codes "failed to resolve digest: " ++ e)
          (parse_reference_and_resolve_digest d rv image)
    (digest, outcomes) ←
        ask d (λ n. notation_verify n rv.notation_verifier repo (verify_options reference))
    lift (check_outcomes digest outcomes)

  abbrev pub set_digest : ImageInfo Info → Str → ImageInfo Info
  set_digest image digest = record image {
    image = record { info = with_digest image.image.info digest };
  }

  -- The part of `verifyImageInfo` behind a miss of the cache.
  unfoldable pub verify_image_uncached : ImageInfo Info → Exec (World d) (ImageInfo Info)
  verify_image_uncached image = do
    let img_ref = info_string image.image.info
    digest ←
        wrap (λ e. codes "failed to verify image " ++ (img_ref ++ (codes ": " ++ e)))
          (verify_references img_ref)
    let verified = set_digest image digest
    added ←
        wrap (λ e. codes "failed to add image to the cache " ++ (img_ref ++ (codes ": " ++ e)))
          (add_image d rv.verifier.cache rv.trust_policy img_ref verified.image)
    pure verified

  abbrev pub cached_or_verified :
      ImageInfo Info → Option (Image Info) → Exec (World d) (ImageInfo Info)
  cached_or_verified image (some cached) = pure (record image { image = cached })
  cached_or_verified image none = verify_image_uncached image

  unfoldable pub verify_image_info : ImageInfo Info → Exec (World d) (ImageInfo Info)
  unfolding verify_image_uncached
  verify_image_info image = do
    found ← get_image d rv.verifier.cache rv.trust_policy (info_string image.image.info)
    cached_or_verified image found
