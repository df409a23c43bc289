-- ===== src/Service/Started.antt =====
-- From the start of the process on: `NewVerifier`, and the loop of `run` with its requests.
use notation_aws_verifier.Deps.{Deps}
use notation_aws_verifier.World.{World}
