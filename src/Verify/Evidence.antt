-- ===== src/Verify/Evidence.antt =====
-- What "verified" means: the answers of notation and of the registries that stand behind it.
use notation_aws_verifier.Prelude.{Str, ℕ, true, Option, some, List, [], ◌∷◌, ◌≡◌, ◌≢◌, ◌⊎◌}
use notation_aws_verifier.Prelude.Map.{Map, lookup}
use notation_aws_verifier.Prelude.Result.{ok}
use notation_aws_verifier.Deps.{Deps, AuthClient, Descriptor}
use notation_aws_verifier.References.{complete_reference, is_digest_reference, get_reference}
use notation_aws_verifier.Types.{Image, AnyAllConditions}
use notation_aws_verifier.Verify.Images.{outcome_errors, verify_options}
use notation_aws_verifier.Verify.Registry.{RequestVerifier, with_client}

module _ (d : Deps) where
  open d use {
    Info, Condition, Reference, Name, Payload, Repository, parse_registry_reference,
    reference_string, with_reference, parse_name, info_digest,
  }

  -- `s` is the digest that the registry gave for the reference, and the one in the reference if it
  -- has one.
  pub record Fetched (rv : RequestVerifier d) (reference s : Str) : Type 0 where
    pub name : Name
    pub parsed : parse_name reference ≡ ok name
    pub call : ℕ
    pub manifest : Str
    pub got : d.get call rv.keychain rv.puller name ≡ ok (s, manifest)
    pub agrees : d.is_digest name ≡ true → d.identifier name ≡ s

  -- `reference` is `image`, completed and with its tag resolved to a digest.
  pub record ResolvedFrom (rv : RequestVerifier d) (image : Str) (reference : Reference)
      : Type 0 where
    pub parsed : Reference
    pub completed : parse_registry_reference (complete_reference image) ≡ ok parsed
    pub resolved :
        ((is_digest_reference (reference_string parsed) ≡ true) × (reference ≡ parsed))
        ⊎ ((s : Str) × (reference ≡ with_reference parsed s)
            × Fetched rv (reference_string parsed) s)

  -- notation accepted the artifact behind `image`, with no error in any outcome.
  pub record NotationVerified (rv : RequestVerifier d) (image digest : Str) : Type 0 where
    pub reference : Reference
    pub resolution : ResolvedFrom rv image reference
    pub base : Repository
    pub opened : d.new_repository (complete_reference image) ≡ ok base
    pub client : Option AuthClient
    pub call : ℕ
    pub outcomes : List (Option Str)
    pub accepted :
        d.notation_verify call rv.notation_verifier
          (with_client d rv base client)
          (verify_options d rv reference)
        ≡ ok (digest, outcomes)
    pub no_errors : outcome_errors outcomes ≡ []

  -- The payload was read from the only layer of a manifest.
  pub record Extracted (rv : RequestVerifier d) (repo_ref : Name) (desc : Descriptor)
      (payload : Payload) : Type 0 where
    pub digest : Str
    pub bytes : Str
    pub call : ℕ
    pub got :
        d.get call rv.keychain rv.puller (d.at_digest repo_ref desc.digest) ≡ ok (digest, bytes)
    pub manifest : d.Manifest
    pub unmarshalled : d.unmarshal_manifest bytes ≡ ok manifest
    pub payload_digest : Str
    pub only_layer : d.layers manifest ≡ payload_digest ∷ []
    pub layer_call : ℕ
    pub layer : d.Layer
    pub got_layer :
        d.layer layer_call rv.keychain rv.puller (d.at_digest repo_ref payload_digest) ≡ ok layer
    pub read_call : ℕ
    pub predicate : Str
    pub read : d.uncompressed read_call layer ≡ ok predicate
    pub decoded : d.decode_payload predicate ≡ ok payload

  -- The conditions evaluated to true over the extracted payload, in a fresh context.
  pub record ConditionsHold (rv : RequestVerifier d) (repo_ref : Name) (desc : Descriptor)
      (conditions : List (AnyAllConditions Condition)) : Type 0 where
    pub payload : Payload
    pub extracted : Extracted rv repo_ref desc payload
    pub context : d.Context
    pub added : d.add_json_object d.new_context payload ≡ ok context
    pub call : ℕ
    pub message : Str
    pub evaluated : d.evaluate_any_all_conditions call context conditions ≡ ok (true, message)

  module _ (vs : Map d.Verifier) where
    -- The request was verified with the verifier that its trust policy has in `vs`.
    pub record Under (trust_policy : Str) (rv : RequestVerifier d) : Type 0 where
      pub policy : rv.trust_policy ≡ trust_policy
      pub current : lookup trust_policy vs ≡ some rv.notation_verifier

    -- An image that was verified under the trust policy, or skipped by it (no digest).
    abbrev pub ImageOk : Str → Str → Image Info → Type 0
    ImageOk trust_policy image_ref img =
        (rv : RequestVerifier d) × Under trust_policy rv
        × NotationVerified rv image_ref (info_digest img.info)

    -- A referrer of the image with the artifact type was verified, and its conditions hold.
    abbrev pub AttestationOk : Str → Str → Str → List (AnyAllConditions Condition) → Type 0
    AttestationOk trust_policy image t conditions =
        (rv : RequestVerifier d) × Under trust_policy rv
        × (ref : Name) × (parse_name image ≡ ok ref)
        × (desc : Descriptor) × (desc.artifact_type ≡ t)
        × (digest : Str) × NotationVerified rv (get_reference d desc.digest ref) digest
        × (digest ≢ [])
        × (conditions ≢ [] → ConditionsHold rv ref desc conditions)
