-- ===== src/Request.antt =====
-- internal/verifier/request.go: the checks on a decoded request.
pub mod WellFormed
use notation_aws_verifier.Prelude.{Str, codes, ◌==◌, ◌++◌, Bool, not, ◌&&◌, List, [], ◌∷◌}
use notation_aws_verifier.Prelude.{is_empty, if◌then◌else◌}
use notation_aws_verifier.Prelude.Result.{Result, ok, err, ◌>>=◌, ◌>>◌}
use notation_aws_verifier.Types.{
  AttestationType, AttestationsInfo, RequestData, VerificationRequest,
}
use notation_aws_verifier.Deps.{Kyverno}

module _ (k : Kyverno) where
  open k use {Info, Condition, has_raw_key, has_raw_value, format_attestation}

  -- The body of the two innermost loops: the nil checks on a condition.
  unfoldable pub check_conditions : List Condition → Result (Unit {0})
  check_conditions [] = ok tt
  check_conditions (c ∷ cs) =
      let rest = check_conditions cs in
      if not (has_raw_key c)
      then err (codes "condition key cannot be empty")
      else if not (has_raw_value c)
      then err (codes "condition value cannot be empty")
      else rest

  unfoldable pub check_types : List (AttestationType Condition) → Result (Unit {0})
  unfolding check_conditions
  check_types [] = ok tt
  check_types (t ∷ ts) =
      if t.name == [] then err (codes "attestation name cannot be empty") else (do
        check_conditions t.conditions.any_conditions
        check_conditions t.conditions.all_conditions
        check_types ts)

  unfoldable pub check_attestations : List (AttestationsInfo Condition) → Result (Unit {0})
  unfolding check_types
  check_attestations [] = ok tt
  check_attestations (a ∷ as') =
      if a.image_reference == []
      then err (codes "image reference cannot be empty " ++ format_attestation a)
      else (do check_types a.types; check_attestations as')

  unfoldable pub process_request_data :
      RequestData Info Condition → Result (VerificationRequest Info Condition)
  unfolding check_attestations
  process_request_data req =
      if is_empty req.images.containers
        && is_empty req.images.init_containers
        && is_empty req.images.ephemeral_containers
      then err (codes "at least one image must be provided")
      else do
        check_attestations req.attestations
        ok (record {
          image_references = req.image_references;
          images = req.images;
          attestations = req.attestations;
          trust_policy = req.trust_policy;
          insecure = req.insecure;
        })
