-- ===== src/Handler/Served.antt =====
-- The endpoint, from a world whose cache is sound to the next: the status 200 is given only to what
-- was checked.
use notation_aws_verifier.Prelude.{Str, ◌≡◌}
use notation_aws_verifier.Prelude.Exec.Keeps.{Returns-eq}
use notation_aws_verifier.Prelude.Map.{Map}
use notation_aws_verifier.Prelude.Result.{ok}
use notation_aws_verifier.Config.{VerifierConfig}
use notation_aws_verifier.Deps.{Deps, RistrettoLaws, RangeLaws, KyvernoLaws}
use notation_aws_verifier.Handler.{HttpRequest, HttpReply, authenticate, handle_check_images}
use notation_aws_verifier.Handler.Checked.{
  Authorized, Passed, Keeps-authenticate, Keeps-handle_check_images,
}
use notation_aws_verifier.Verify.Sound.References.{Sound, PlainNames}
use notation_aws_verifier.World.{World}

module _ (d : Deps) (laws : RistrettoLaws d.ristretto) (fair : RangeLaws d)
    (kl : KyvernoLaws d.kyverno) (vs : Map d.Verifier) (names : PlainNames vs)
    (v : VerifierConfig d.Keychain) where
  pub handle_check_images_lem :
      (r : HttpRequest d.Info d.Condition) (w : World d)
      → Sound d laws vs w
      → (reply : HttpReply) → (handle_check_images d v r w).0 ≡ ok reply
      → reply.status ≡ 200
      → Passed d laws fair kl vs names v r reply.text
  handle_check_images_lem r w sound reply e =
      Returns-eq _ _ ((Keeps-handle_check_images d laws fair kl vs names v r).returns w sound) reply
        e

  pub handle_check_images-IsSound :
      (r : HttpRequest d.Info d.Condition) (w : World d)
      → Sound d laws vs w
      → Sound d laws vs (handle_check_images d v r w).1
  handle_check_images-IsSound r w sound =
      (Keeps-handle_check_images d laws fair kl vs names v r).at w sound

module _ (d : Deps) (laws : RistrettoLaws d.ristretto) (vs : Map d.Verifier)
    (v : VerifierConfig d.Keychain) where
  -- From a sound world, the review of an Authorization header ends with the status 200 only if
  -- the header is "Bearer " and a token that is not blank, and the API server authenticated the
  -- token for an allowed user.
  pub authenticate_lem :
      (header : Str) (w : World d)
      → Sound d laws vs w
      → (reply : HttpReply) → (authenticate d v header w).0 ≡ ok reply
      → reply.status ≡ 200
      → Authorized d v header
  authenticate_lem header w sound reply e =
      Returns-eq _ _ ((Keeps-authenticate d laws vs v header).returns w sound) reply e
