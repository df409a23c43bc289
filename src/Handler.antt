-- ===== src/Handler.antt =====
-- internal/verifier/client.go: the /checkimages endpoint, the review of its bearer token, and the
-- change of the trust policies. The body comes decoded, or with the error of its decoder; a reply
-- is a status and a text.
pub mod Checked
pub mod Refresh
pub mod Served
use notation_aws_verifier.Prelude.{
  Str, codes, ℕ, eqb, ◌==◌, ◌++◌, Bool, not, Option, none, some, [], is_empty, if◌then◌else◌,
}
use notation_aws_verifier.Prelude.Exec.{Exec, pure, attempt, ◌>>=◌}
use notation_aws_verifier.Prelude.Result.{Result, ok, err}
use notation_aws_verifier.Prelude.Text.Scan.{cut_prefix}
use notation_aws_verifier.Prelude.Text.Split.{contains, trim_space}
use notation_aws_verifier.Config.{VerifierConfig}
use notation_aws_verifier.Deps.{Deps, TokenReviewSpec, TokenReviewStatus}
use notation_aws_verifier.Request.{process_request_data}
use notation_aws_verifier.Types.{RequestData, VerificationRequest, ResponseData}
use notation_aws_verifier.Verify.{verify_images_and_attestations}
use notation_aws_verifier.World.{World, ask}

pub record HttpRequest (Info Condition : Type 0) : Type 0 where
  pub method : Str
  -- the header `Authorization`, empty if it is missing
  pub authorization : Str
  pub body : Result (RequestData Info Condition)

pub record HttpReply : Type 0 where
  pub status : ℕ
  pub text : Str

abbrev pub http_error : Str → ℕ → HttpReply
http_error msg status = record { status = status; text = msg }

abbrev pub post : Str
post = codes "POST"

abbrev pub bearer : Str
bearer = codes "Bearer "

module _ (d : Deps) where
  open d use {Info, Condition, Keychain, create_token_review, marshal_response}

  unfoldable pub is_allowed : VerifierConfig Keychain → Str → Bool
  is_allowed v username = contains v.allowed_users username

  -- What becomes of the token review, and of its error.
  unfoldable pub judge_review : VerifierConfig Keychain → Result TokenReviewStatus → HttpReply
  unfolding is_allowed
  judge_review v (err e) = http_error (codes "failed to review auth token") 500
  judge_review v (ok status) =
      if not status.authenticated
      then http_error (codes "Token is not authenticated") 401
      else if not (is_allowed v status.username)
      then http_error (codes "Token is not authorized") 403
      else http_error [] 200

  -- `strings.CutPrefix` leaves the header as it is when it has no such prefix.
  unfoldable pub review_header : VerifierConfig Keychain → Option Str → Exec (World d) HttpReply
  unfolding judge_review
  review_header v none =
      pure (http_error (codes "Authorization header must be of the form \"Bearer <token>\"") 401)
  review_header v (some rest) =
      if is_empty (trim_space rest)
      then pure
          (http_error (codes "Authorization header must be of the form \"Bearer <token>\"") 401)
      else do
        result ← attempt (
            ask d (λ n.
              create_token_review n
                (record { token = trim_space rest; audiences = v.token_review_audiences })))
        pure (judge_review v result)

  unfoldable pub authenticate : VerifierConfig Keychain → Str → Exec (World d) HttpReply
  unfolding review_header
  authenticate v header =
      if is_empty header
      then pure (http_error (codes "Authorization header not supplied") 401)
      else review_header v (cut_prefix header bearer)

  abbrev pub send : Result Str → HttpReply
  send (ok text) = record { status = 200; text = text }
  send (err e) = http_error e 500

  unfoldable pub reply_to : Result ResponseData → HttpReply
  reply_to (err e) = http_error e 500
  reply_to (ok resp) =
      if not resp.verified then http_error resp.error_message 406 else send (marshal_response resp)

  abbrev pub answer_request :
      VerifierConfig Keychain
      → Result (VerificationRequest Info Condition)
      → Exec (World d) HttpReply
  answer_request v (err e) = pure (http_error e 406)
  answer_request v (ok payload) = do
    resp ← attempt (verify_images_and_attestations d v payload)
    pure (reply_to resp)

  abbrev pub answer_body :
      VerifierConfig Keychain → Result (RequestData Info Condition) → Exec (World d) HttpReply
  answer_body v (err e) = pure (http_error (codes "failed to decode request body: " ++ e) 406)
  answer_body v (ok request) = answer_request v (process_request_data d.kyverno request)

  unfoldable pub handle_check_images :
      VerifierConfig Keychain → HttpRequest Info Condition → Exec (World d) HttpReply
  unfolding authenticate reply_to
  handle_check_images v r =
      if not (r.method == post) then pure (http_error (codes "Method Not Allowed") 405) else do
        review ← if v.review_token then authenticate v r.authorization else pure (http_error [] 200)
        if not (eqb review.status 200) then pure review else answer_body v r.body
