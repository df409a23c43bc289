-- ===== src/Request/WellFormed.antt =====
-- Which requests `process_request_data` accepts.
use notation_aws_verifier.Prelude.{
  ==_iff, true, List, [], ◌∷◌, ◌≡◌, ◌≢◌, ◌↔◌, ◌⊎◌, refl, All, arith,
}
use notation_aws_verifier.Prelude.Result.{ok}
use notation_aws_verifier.Types.{
  AttestationType, AttestationsInfo, RequestData, VerificationRequest,
}
use notation_aws_verifier.Deps.{Kyverno}
use notation_aws_verifier.Request.{
  check_conditions, check_types, check_attestations, process_request_data,
}

module _ (k : Kyverno) where
  open k use {Info, Condition, has_raw_key, has_raw_value}

  -- A condition with a key and a value.
  abbrev pub IsComplete : Condition → Type 0
  IsComplete c = (has_raw_key c ≡ true) × (has_raw_value c ≡ true)

  abbrev pub IsNamed : AttestationType Condition → Type 0
  IsNamed t =
      (t.name ≢ [])
      × All IsComplete t.conditions.any_conditions
      × All IsComplete t.conditions.all_conditions

  abbrev pub IsAddressed : AttestationsInfo Condition → Type 0
  IsAddressed a = (a.image_reference ≢ []) × All IsNamed a.types

  -- At least one image, and every attestation, type and condition filled in.
  pub record IsWellFormed (req : RequestData Info Condition) : Type 0 where
    pub some_image :
        (req.images.containers ≢ [])
        ⊎ (req.images.init_containers ≢ [])
        ⊎ (req.images.ephemeral_containers ≢ [])
    pub addressed : All IsAddressed req.attestations

  -- The request without its metadata.
  abbrev pub accepted : RequestData Info Condition → VerificationRequest Info Condition
  accepted req = record {
    image_references = req.image_references;
    images = req.images;
    trust_policy = req.trust_policy;
    attestations = req.attestations;
    insecure = req.insecure;
  }

  check_conditions_iff : (cs : List Condition) → (check_conditions k cs ≡ ok tt) ↔ All IsComplete cs
  unfolding check_conditions
  check_conditions_iff [] = (λ _. tt, λ _. refl)
  check_conditions_iff (c ∷ cs) =
      (λ h. ground (arith, check_conditions_iff cs), λ h. ground (arith, check_conditions_iff cs))

  check_types_iff :
      (ts : List (AttestationType Condition)) → (check_types k ts ≡ ok tt) ↔ All IsNamed ts
  unfolding check_types
  check_types_iff [] = (λ _. tt, λ _. refl)
  check_types_iff (t ∷ ts) = (
    λ h. ground (
      arith,
      ==_iff t.name [],
      check_conditions_iff t.conditions.any_conditions,
      check_conditions_iff t.conditions.all_conditions,
      check_types_iff ts,
    ),
    λ h. ground (
      arith,
      ==_iff t.name [],
      check_conditions_iff t.conditions.any_conditions,
      check_conditions_iff t.conditions.all_conditions,
      check_types_iff ts,
    ),
  )

  check_attestations_iff :
      (l : List (AttestationsInfo Condition)) → (check_attestations k l ≡ ok tt) ↔ All IsAddressed l
  unfolding check_attestations
  check_attestations_iff [] = (λ _. tt, λ _. refl)
  check_attestations_iff (a ∷ l) = (
    λ h.
        ground
          (arith, ==_iff a.image_reference [], check_types_iff a.types, check_attestations_iff l),
    λ h.
        ground
          (arith, ==_iff a.image_reference [], check_types_iff a.types, check_attestations_iff l),
  )

  -- A request is accepted exactly when it is well formed, and it is handed on unchanged but for
  -- its metadata.
  pub process_request_data_iff :
      (req : RequestData Info Condition) (v : VerificationRequest Info Condition)
      → (process_request_data k req ≡ ok v) ↔ (IsWellFormed req × (v ≡ accepted req))
  unfolding process_request_data
  process_request_data_iff req v = (
    λ h. ground (arith, check_attestations_iff req.attestations),
    λ h. ground (arith, check_attestations_iff req.attestations),
  )
