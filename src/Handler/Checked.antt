-- ===== src/Handler/Checked.antt =====
-- What stands behind the status 200 of /checkimages.
use notation_aws_verifier.Prelude.{
  Str, ℕ, eqb, eqb_iff, ◌==◌, ==_iff, ◌++◌, Bool, true, false, not, Option, none, some, [], ◌≡◌,
  ◌≢◌, refl, is_empty, ne-nil, In, arith, if◌then◌else◌,
}
use notation_aws_verifier.Prelude.Exec.{pure}
use notation_aws_verifier.Prelude.Exec.Keeps.{
  Keeps, Returns, Keeps-pure, Keeps-if, Keeps-bind, Keeps-attempt, Keeps-map,
}
use notation_aws_verifier.Prelude.Map.{Map}
use notation_aws_verifier.Prelude.Result.{Result, ok, err}
use notation_aws_verifier.Prelude.Text.Scan.{cut_prefix, cut_prefix-eq-some}
use notation_aws_verifier.Prelude.Text.Split.{contains, contains-In, trim_space}
use notation_aws_verifier.Config.{VerifierConfig}
use notation_aws_verifier.Deps.{Deps, TokenReviewStatus, RistrettoLaws, RangeLaws, KyvernoLaws}
use notation_aws_verifier.Handler.{
  HttpRequest, HttpReply, http_error, post, bearer, is_allowed, judge_review, review_header,
  authenticate, send, reply_to, answer_request, answer_body, handle_check_images,
}
use notation_aws_verifier.Request.{process_request_data}
use notation_aws_verifier.Types.{RequestData, VerificationRequest, ResponseData}
use notation_aws_verifier.Verify.Outcome.Accepted.{IsAccepted, Keeps-verify_images_and_attestations}
use notation_aws_verifier.Verify.Sound.Attestations.{P, Keeps-asked}
use notation_aws_verifier.Verify.Sound.References.{PlainNames}

module _ (d : Deps) (v : VerifierConfig d.Keychain) where
  -- The API server authenticated the bearer token of the header, for a user on the list.
  pub record Authorized (header : Str) : Type 0 where
    pub rest : Str
    pub prefixed : header ≡ bearer ++ rest
    pub not_blank : trim_space rest ≢ []
    pub call : ℕ
    pub status : TokenReviewStatus
    pub reviewed :
        d.create_token_review call
          (record { token = trim_space rest; audiences = v.token_review_audiences })
        ≡ ok status
    pub authenticated : status.authenticated ≡ true
    pub listed : In status.username v.allowed_users

  judged :
      (status : TokenReviewStatus)
      → (judge_review d v (ok status)).status ≡ 200
      → (status.authenticated ≡ true) × (contains v.allowed_users status.username ≡ true)
  unfolding judge_review is_allowed
  judged status h = ground arith

  judged_error : (e : Str) → (judge_review d v (err e)).status ≢ 200
  unfolding judge_review
  judged_error e h = ground arith

module _ (d : Deps) (laws : RistrettoLaws d.ristretto) (vs : Map d.Verifier)
    (v : VerifierConfig d.Keychain) where
  reviewed :
      (header rest : Str)
      → header ≡ bearer ++ rest
      → trim_space rest ≢ []
      → (r : Result TokenReviewStatus)
      → Returns
          (λ status.
            (n : ℕ) × (d.create_token_review n
                (record { token = trim_space rest; audiences = v.token_review_audiences })
              ≡ ok status))
          r
      → (judge_review d v r).status ≡ 200
      → Authorized d v header
  reviewed header rest prefixed not_blank (err e) asked h = absurd (judged_error d v e h)
  reviewed header rest prefixed not_blank (ok status) (n, e) h =
      let (p, q) = judged d v status h in
      record {
        rest = rest;
        prefixed = prefixed;
        not_blank = not_blank;
        call = n;
        status = status;
        reviewed = e;
        authenticated = p;
        listed = contains-In v.allowed_users status.username q;
      }

  Keeps-review_header :
      (header : Str) (o : Option Str)
      → cut_prefix header bearer ≡ o
      → Keeps
          (P d laws vs)
          (review_header d v o)
          (λ reply. reply.status ≡ 200 → Authorized d v header)
  unfolding review_header
  Keeps-review_header header none e = Keeps-pure _ (λ h. absurd (ground arith))
  Keeps-review_header header (some rest) e =
      Keeps-if (is_empty (trim_space rest)) _ _ _ (λ _. Keeps-pure _ (λ h. absurd (ground arith)))
        (λ not_blank. Keeps-bind _ _ (Keeps-attempt _ _ (Keeps-asked d laws vs _)) (λ r asked.
          Keeps-pure _ (
            reviewed header rest (cut_prefix-eq-some header bearer rest e)
              (ne-nil (trim_space rest) not_blank) r asked)))

  -- The status 200 comes only from a review that authenticates the token of an allowed user.
  pub Keeps-authenticate :
      (header : Str)
      → Keeps
          (P d laws vs)
          (authenticate d v header)
          (λ reply. reply.status ≡ 200 → Authorized d v header)
  unfolding authenticate
  Keeps-authenticate header =
      Keeps-if (is_empty header) _ _ _ (λ _. Keeps-pure _ (λ h. absurd (ground arith)))
        (λ _. Keeps-review_header header (cut_prefix header bearer) refl)

module _ (d : Deps) (laws : RistrettoLaws d.ristretto) (fair : RangeLaws d)
    (kl : KyvernoLaws d.kyverno) (vs : Map d.Verifier) (names : PlainNames vs)
    (v : VerifierConfig d.Keychain) where
  open d use {Info, Condition}

  -- What the reply 200 shows of its request.
  pub record Passed (r : HttpRequest Info Condition) (text : Str) : Type 0 where
    pub method : r.method ≡ post
    pub reviewed : v.review_token ≡ true → Authorized d v r.authorization
    pub request : RequestData Info Condition
    pub decoded : r.body ≡ ok request
    pub payload : VerificationRequest Info Condition
    pub processed : process_request_data d.kyverno request ≡ ok payload
    pub response : ResponseData
    pub accepted : IsAccepted d laws fair kl vs names payload response
    pub marshalled : d.marshal_response response ≡ ok text

  send-status : (r : Result Str) → (send d r).status ≡ 200 → r ≡ ok (send d r).text
  send-status (ok text) h = refl
  send-status (err e) h = absurd (ground arith)

  reply_by :
      (verified : Bool) (msg : Str) (m : Result Str)
      → (if not verified then http_error msg 406 else send d m).status ≡ 200
      → (verified ≡ true) × (m ≡ ok (if not verified then http_error msg 406 else send d m).text)
  reply_by true msg m h = (refl, send-status m h)
  reply_by false msg m h = absurd (ground arith)

  reply-status :
      (resp : ResponseData)
      → (reply_to d (ok resp)).status ≡ 200
      → (resp.verified ≡ true) × (d.marshal_response resp ≡ ok (reply_to d (ok resp)).text)
  unfolding reply_to
  reply-status resp h = reply_by resp.verified resp.error_message (d.marshal_response resp) h

  reply_error : (e : Str) → (reply_to d (err e)).status ≢ 200
  unfolding reply_to
  reply_error e h = ground arith

  abbrev Answered : HttpRequest Info Condition → HttpReply → Type 0
  Answered r reply = reply.status ≡ 200 → Passed r reply.text

  answered :
      (r : HttpRequest Info Condition)
      → r.method ≡ post
      → (v.review_token ≡ true → Authorized d v r.authorization)
      → (request : RequestData Info Condition) → r.body ≡ ok request
      → (payload : VerificationRequest Info Condition)
      → process_request_data d.kyverno request ≡ ok payload
      → (o : Result ResponseData)
      → Returns (λ resp. resp.verified ≡ true → IsAccepted d laws fair kl vs names payload resp) o
      → Answered r (reply_to d o)
  answered r method auth request decoded payload processed (err e) q h = absurd (reply_error e h)
  answered r method auth request decoded payload processed (ok resp) q h =
      let (verified, marshalled) = reply-status resp h in
      record {
        method = method;
        reviewed = auth;
        request = request;
        decoded = decoded;
        payload = payload;
        processed = processed;
        response = resp;
        accepted = q verified;
        marshalled = marshalled;
      }

  Keeps-answer_request :
      (r : HttpRequest Info Condition)
      → r.method ≡ post
      → (v.review_token ≡ true → Authorized d v r.authorization)
      → (request : RequestData Info Condition) → r.body ≡ ok request
      → (p : Result (VerificationRequest Info Condition))
      → process_request_data d.kyverno request ≡ p
      → Keeps (P d laws vs) (answer_request d v p) (Answered r)
  Keeps-answer_request r method auth request decoded (err e) processed =
      Keeps-pure _ (λ h. absurd (ground arith))
  Keeps-answer_request r method auth request decoded (ok payload) processed =
      Keeps-bind _ _
        (Keeps-attempt _ _ (Keeps-verify_images_and_attestations d laws fair kl vs names v payload))
        (λ o q. Keeps-pure _ (answered r method auth request decoded payload processed o q))

  Keeps-answer_body :
      (r : HttpRequest Info Condition)
      → r.method ≡ post
      → (v.review_token ≡ true → Authorized d v r.authorization)
      → (b : Result (RequestData Info Condition)) → r.body ≡ b
      → Keeps (P d laws vs) (answer_body d v b) (Answered r)
  Keeps-answer_body r method auth (err e) decoded = Keeps-pure _ (λ h. absurd (ground arith))
  Keeps-answer_body r method auth (ok request) decoded =
      Keeps-answer_request r method auth request decoded (process_request_data d.kyverno request)
        refl

  not-eq-false : (b : Bool) → not b ≡ false → b ≡ true
  not-eq-false true h = refl
  not-eq-false false h = ground arith

  status_ok : (n : ℕ) → not (eqb n 200) ≡ false → n ≡ 200
  status_ok n h = (eqb_iff n 200).0 (not-eq-false (eqb n 200) h)

  pub Keeps-handle_check_images :
      (r : HttpRequest Info Condition)
      → Keeps (P d laws vs) (handle_check_images d v r) (Answered r)
  unfolding handle_check_images
  Keeps-handle_check_images r =
      Keeps-if (not (r.method == post)) _ _ (Answered r)
        (λ _. Keeps-pure _ (λ h. absurd (ground arith)))
        (λ is_post.
          Keeps-bind
            {Q = λ review.
              review.status ≡ 200 → v.review_token ≡ true → Authorized d v r.authorization}
            _ _
            (Keeps-if v.review_token (authenticate d v r.authorization) _ _
              (λ _.
                Keeps-map _ _ _ (λ _ q h _. q h) (Keeps-authenticate d laws vs v r.authorization))
              (λ off. Keeps-pure _ (λ _ on. absurd (ground arith))))
            (λ review q.
              Keeps-if (not (eqb review.status 200)) (pure review) _ (Answered r)
                (λ bad. Keeps-pure review (λ h. absurd (ground arith)))
                (λ good.
                  Keeps-answer_body r ((==_iff r.method post).0 (not-eq-false _ is_post))
                    (q (status_ok review.status good)) r.body refl)))
