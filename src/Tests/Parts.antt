-- ===== src/Tests/Parts.antt =====
-- The theorems on requests, responses, references and the cache, at concrete values.
use notation_aws_verifier.Prelude.{
  codes, ◌*◌, Bool, true, false, [], ◌∷◌, ◌≡◌, ◌↔◌, refl, arith, All,
}
use notation_aws_verifier.Prelude.Int.{pos, negsuc, is_nonpos, to_nat, wrap_int64}
use notation_aws_verifier.Prelude.Map.{lookup, count, NodupKeys}
use notation_aws_verifier.Prelude.Result.{ok}
use notation_aws_verifier.Prelude.Text.Scan.{contains_char, contains_any, after_last}
use notation_aws_verifier.Cache.Keys.{create_image_key_inj}
use notation_aws_verifier.Cache.New.{
  default_max_size, default_ttl, with_cache_enabled, with_max_size, with_ttl_duration,
  apply_options, new_cache, new_cache-positive,
}
use notation_aws_verifier.References.{complete_reference, match_attestations}
use notation_aws_verifier.References.Complete.{
  IsComplete, complete_reference-IsComplete, complete_reference_of_IsComplete, IsPresent,
  match_attestations_iff,
}
use notation_aws_verifier.Request.{process_request_data}
use notation_aws_verifier.Request.WellFormed.{IsWellFormed, accepted, process_request_data_iff}
use notation_aws_verifier.Response.{Response, build_attestation_list}
use notation_aws_verifier.Response.Build.{Updates, build_attestation_list_lem}
use notation_aws_verifier.Response.Required.{
  types_for, add_types, conditions_named, lookup-add_types,
}
use notation_aws_verifier.Types.{AttestationsInfo, AttestationType, RequestData}
use notation_aws_verifier.Prelude.Result.{Result}
use notation_aws_verifier.Cache.{Cache, create_attestation_key}
use notation_aws_verifier.Cache.New.{Chosen, new_cache-Chosen}
use notation_aws_verifier.Cache.Keys.{create_attestation_key_inj}
use notation_aws_verifier.Prelude.Text.Scan.{contains_char}
use notation_aws_verifier.Response.{new_response}
use notation_aws_verifier.Verify.{Building, verify_request}
use notation_aws_verifier.Tests.{
  ToyInfo, toy, toy_kyverno, toy_range, toy_config, toy_world, toy_image,
}

abbrev one_type : AttestationType Bool
one_type = record {
  name = codes "sbom";
  conditions = record { any_conditions = []; all_conditions = true ∷ [] };
}

abbrev one_policy : AttestationsInfo Bool
one_policy = record { image_reference = b'*' ∷ []; types = one_type ∷ [] }

abbrev one_request : RequestData ToyInfo Bool
one_request = record {
  image_references = (b'*' ∷ []) ∷ [];
  images = record {
    init_containers = [];
    containers = (codes "app", toy_image) ∷ [];
    ephemeral_containers = [];
  };
  trust_policy = codes "tp";
  attestations = one_policy ∷ [];
  metadata = [];
  insecure = false;
}

process_request_data_iff_example :
    (process_request_data toy_kyverno one_request ≡ ok (accepted toy_kyverno one_request)) ↔ (
      IsWellFormed toy_kyverno one_request
      × (accepted toy_kyverno one_request ≡ accepted toy_kyverno one_request))
process_request_data_iff_example =
    process_request_data_iff toy_kyverno one_request (accepted toy_kyverno one_request)

abbrev one_outcome : Result (Unit {0}) × Building toy
one_outcome =
    verify_request toy toy_config (accepted toy_kyverno one_request)
      (toy_world, new_response toy_kyverno)

lookup-add_types_example :
    lookup (codes "sbom") (add_types toy_kyverno (one_type ∷ one_type ∷ []) [])
    ≡ conditions_named toy_kyverno
        (codes "sbom")
        (one_type ∷ one_type ∷ [])
        (lookup (codes "sbom") [])
lookup-add_types_example = lookup-add_types toy_kyverno (codes "sbom") (one_type ∷ one_type ∷ []) []

abbrev one_image : Response Bool
one_image = record {
  image_list = (codes "reg/app", []) ∷ [];
  response_data = record { verified = true; error_message = []; results = [] };
}

one_image_nodup : NodupKeys one_image.image_list
unfolding count
one_image_nodup k = ground arith

build_attestation_list_lem_example :
    (r' : Response Bool) × (build_attestation_list toy_kyverno toy.range_order 0
        (one_policy ∷ [])
        one_image
      ≡ ok r')
    × Updates toy_kyverno
        (λ j. add_types toy_kyverno (types_for toy_kyverno j (one_policy ∷ [])))
        one_image
        r'
build_attestation_list_lem_example =
    build_attestation_list_lem toy_kyverno toy.range_order toy_range.count_order 0 (one_policy ∷ [])
      one_image one_image_nodup

match_attestations_iff_example :
    (match_attestations
        (codes "reg/app")
        (codes "sbom" ∷ [])
        (record { artifact_type = codes "sbom"; digest = [] } ∷ [])
      ≡ ok tt)
    ↔ All
        (IsPresent (record { artifact_type = codes "sbom"; digest = [] } ∷ []))
        (codes "sbom" ∷ [])
match_attestations_iff_example =
    match_attestations_iff (codes "reg/app") (codes "sbom" ∷ [])
      (record { artifact_type = codes "sbom"; digest = [] } ∷ [])

complete_reference-IsComplete_example : IsComplete (complete_reference (codes "nginx"))
complete_reference-IsComplete_example = complete_reference-IsComplete (codes "nginx")

complete_reference_of_IsComplete_example :
    complete_reference (codes "reg/app:v1") ≡ codes "reg/app:v1"
unfolding codes contains_char contains_any after_last
complete_reference_of_IsComplete_example =
    complete_reference_of_IsComplete (codes "reg/app:v1") (record { slash = refl; tagged = refl })

create_image_key_inj_example : (codes "tp" ≡ codes "tp") × (codes "reg/app" ≡ codes "reg/app")
unfolding codes contains_char
create_image_key_inj_example =
    create_image_key_inj (codes "tp") (codes "tp") (codes "reg/app") (codes "reg/app") refl refl
      refl

new_cache-positive_example : (is_nonpos default_max_size ≡ false) × (is_nonpos default_ttl ≡ false)
unfolding new_cache with_max_size apply_options
new_cache-positive_example =
    new_cache-positive toy (with_max_size (negsuc 4) ∷ [])
      (record { use_cache = false; ttl = default_ttl; max_size = default_max_size }) [] refl

abbrev seven_entries : Cache
seven_entries = record { use_cache = true; ttl = pos 3600000000000; max_size = pos 7 }

-- The time to live is not positive.
new_cache-Chosen_example :
    (seven_entries.use_cache ≡ true)
    × Chosen (pos 7) (pos 1000) seven_entries.max_size
    × Chosen (negsuc 0) (pos 3600000000000) seven_entries.ttl
    × (toy.new_store (wrap_int64 (to_nat seven_entries.max_size * 10)) seven_entries.max_size
        ≡ ok [])
unfolding new_cache apply_options with_cache_enabled with_max_size with_ttl_duration
new_cache-Chosen_example = new_cache-Chosen toy true (pos 7) (negsuc 0) seven_entries [] refl

-- The key of an attestation.
create_attestation_key_inj_example :
    (codes "tp" ≡ codes "tp")
    × (codes "reg/app" ≡ codes "reg/app")
    × (codes "sbom" ≡ codes "sbom")
    × (toy.marshal_conditions [] ≡ toy.marshal_conditions [])
unfolding create_attestation_key codes contains_char
create_attestation_key_inj_example =
    create_attestation_key_inj toy (codes "tp") (codes "tp") (codes "reg/app") (codes "reg/app")
      (codes "sbom") (codes "sbom") [] [] (codes "tp;reg/app;sbom;{") refl refl refl refl refl refl
      refl refl
