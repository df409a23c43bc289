-- ===== src/Tests/Verification.antt =====
-- A POST request for one image, from the token to the reply, and the theorems at it.
use notation_aws_verifier.Prelude.{codes, ◌==◌, ==_iff, Bool, true, false, [], ◌∷◌, refl, arith}
use notation_aws_verifier.Prelude.Exec.{attempt, ◌>>=◌}
use notation_aws_verifier.Prelude.Map.{lookup}
use notation_aws_verifier.Prelude.Result.{ok}
use notation_aws_verifier.Prelude.Text.Scan.{contains_char, cut_prefix}
use notation_aws_verifier.Prelude.Text.Split.{is_space, trim_left, trim_right, trim_space, contains}
use notation_aws_verifier.Handler.{
  HttpRequest, HttpReply, post, is_allowed, judge_review, review_header, authenticate,
}
use notation_aws_verifier.Handler.Served.{authenticate_lem}
use notation_aws_verifier.Types.{RequestData, VerificationRequest, ResponseData}
use notation_aws_verifier.Verify.Sound.References.{Sound, PlainNames}
use notation_aws_verifier.Handler.Checked.{Authorized}
use notation_aws_verifier.Response
use notation_aws_verifier.World.{ask}
use notation_aws_verifier.Tests.{
  ToyInfo, toy, toy_laws, toy_config, toy_world, toy_verifiers, toy_image,
}

pub toy_names : PlainNames toy_verifiers
unfolding lookup codes contains_char ◌==◌
toy_names k v h = ground (arith, ==_iff (codes "tp") k)

abbrev pub toy_request : RequestData ToyInfo Bool
toy_request = record {
  image_references = (b'*' ∷ []) ∷ [];
  images = record {
    init_containers = [];
    containers = (codes "app", toy_image) ∷ [];
    ephemeral_containers = [];
  };
  trust_policy = codes "tp";
  attestations = [];
  metadata = [];
  insecure = false;
}

abbrev pub toy_post : HttpRequest ToyInfo Bool
toy_post = record { method = post; authorization = codes "Bearer kyverno"; body = ok toy_request }

pub toy-Sound : Sound toy toy_laws toy_verifiers toy_world
unfolding lookup
toy-Sound = record { same = refl; held = λ k e h. absurd (ground arith) }

abbrev pub toy_reply : HttpReply
toy_reply = record { status = 200; text = codes "{}" }

authenticate_lem_example : Authorized toy toy_config (codes "Bearer kyverno")
unfolding authenticate review_header judge_review is_allowed attempt ◌>>=◌ ask ◌==◌ codes cut_prefix
    is_space trim_left trim_right trim_space contains
authenticate_lem_example =
    authenticate_lem toy toy_laws toy_verifiers toy_config (codes "Bearer kyverno") toy_world
      toy-Sound (record { status = 200; text = [] }) refl refl

abbrev toy_payload : VerificationRequest ToyInfo Bool
toy_payload = record {
  image_references = (b'*' ∷ []) ∷ [];
  images = toy_request.images;
  trust_policy = codes "tp";
  attestations =
      record {
        image_reference = b'*' ∷ [];
        types =
            record {
              name = codes "sbom";
              conditions = record { any_conditions = []; all_conditions = true ∷ [] };
            }
            ∷ [];
      }
      ∷ [];
  insecure = false;
}

abbrev toy_response : ResponseData
toy_response = record {
  verified = true;
  error_message = [];
  results =
      record {
        operation = codes "replace";
        path = codes "/spec/containers/0/image";
        value = codes "reg/app@sha256:aa";
      }
      ∷ [];
}
