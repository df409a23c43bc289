-- ===== src/Verify/Outcome/Promises.antt =====
-- What the steps of a verification promise of the value that they return, from a world whose
-- cache is sound for the verifiers in force.
use notation_aws_verifier.Prelude.{Str, ◌≡◌}
use notation_aws_verifier.Prelude.Exec.Keeps.{Returns-eq}
use notation_aws_verifier.Prelude.Map.{Map}
use notation_aws_verifier.Prelude.Result.{ok}
use notation_aws_verifier.Deps.{Deps, RistrettoLaws, KyvernoLaws}
use notation_aws_verifier.Types.{ImageInfo}
use notation_aws_verifier.Verify.Evidence.{Under, NotationVerified}
use notation_aws_verifier.Verify.Images.{verify_references, verify_image_info}
use notation_aws_verifier.Verify.Registry.{RequestVerifier}
use notation_aws_verifier.Verify.Sound.References.{
  Sound, PlainNames, ImageResult, Keeps-verify_references, Keeps-verify_image_info,
}
use notation_aws_verifier.Verify.Sound.Satisfied.{Satisfied}
use notation_aws_verifier.World.{World}

module _ (d : Deps) (laws : RistrettoLaws d.ristretto) (vs : Map d.Verifier)
    (rv : RequestVerifier d) where
  -- From a sound world, a digest that `verifyReferences` returns is one that notation verified,
  -- with no error in any outcome, for the reference completed and resolved to a digest.
  pub verify_references_lem :
      (image : Str) (w : World d)
      → Sound d laws vs w
      → (digest : Str) → (verify_references d rv image w).0 ≡ ok digest
      → NotationVerified d rv image digest
  verify_references_lem image w sound digest e =
      Returns-eq _ _ ((Keeps-verify_references d laws vs rv image).returns w sound) digest e

  -- From a sound world, with the verifier that the trust policy of the request has, and if no name
  -- of a verifier holds a semicolon, an image that `verifyImageInfo` returns keeps its pointer, and
  -- was verified under that trust policy, now or when it was cached.
  pub verify_image_info_lem :
      (kl : KyvernoLaws d.kyverno) (names : PlainNames vs) (under : Under d vs rv.trust_policy rv)
      (image : ImageInfo d.Info) (w : World d)
      → Sound d laws vs w
      → (result : ImageInfo d.Info) → (verify_image_info d rv image w).0 ≡ ok result
      → ImageResult d laws vs rv kl names under image result
  verify_image_info_lem kl names under image w sound result e =
      Returns-eq _ _ ((Keeps-verify_image_info d laws vs rv kl names under image).returns w sound)
        result e
