-- ===== src/Verify/Outcome/Closed.antt =====
-- Verification answers every request, and fails closed.
use notation_aws_verifier.Prelude.{Str, false, [], ◌≡◌}
use notation_aws_verifier.Prelude.Result.{Result, ok, err}
use notation_aws_verifier.Deps.{Deps}
use notation_aws_verifier.Response.{Response}
use notation_aws_verifier.Types.{ResponseData}
use notation_aws_verifier.World.{World}

module _ (d : Deps) where
  open d use {Info, Condition, Keychain}

  -- What is answered after an error, and after none, with the response that is left.
  abbrev pub Failed : Result (Unit {0}) → ResponseData → Type 0
  Failed outcome resp =
      (e : Str) × (outcome ≡ err e)
      × (resp.verified ≡ false)
      × (resp.error_message ≡ e)
      × (resp.results ≡ [])

  abbrev pub Succeeded : Result (Unit {0}) → Response Condition → ResponseData → Type 0
  Succeeded outcome r resp =
      (outcome ≡ ok tt)
      × (resp.verified ≡ r.response_data.verified)
      × (resp.error_message ≡ [])
      × (resp.results ≡ r.response_data.results)
