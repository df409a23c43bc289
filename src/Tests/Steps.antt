-- ===== src/Tests/Steps.antt =====
-- The steps of a verification at the small world: references, an image, attestations, updates.
use notation_aws_verifier.Prelude.{codes, ◌==◌, true, [], ◌∷◌, ◌≡◌, refl}
use notation_aws_verifier.Prelude.Exec.{wrap, attempt, ◌>>=◌}
use notation_aws_verifier.Prelude.Map.{Map, lookup, insert}
use notation_aws_verifier.Prelude.Result.{err}
use notation_aws_verifier.Prelude.Text.Scan.{contains_char, contains_any, after_last, split_first}
use notation_aws_verifier.Auth.{get_auth_config_from_keychain}
use notation_aws_verifier.Cache.{create_image_key, set_entry, find_entry, add_image, get_image}
use notation_aws_verifier.Deps.{Deps}
use notation_aws_verifier.Factory.Refresh.{refresh_verifiers, read_verifiers}
use notation_aws_verifier.Handler.Refresh.{
  update_notation_verifier, update_notation_verifier-err, update_notation_verifier-IsSound,
}
use notation_aws_verifier.References.{
  with_registry, with_tag, complete_reference, is_digest_reference,
}
use notation_aws_verifier.Types.{ImageInfo, AttestationList}
use notation_aws_verifier.Verify.Evidence.{Under, NotationVerified}
use notation_aws_verifier.Verify.Images.{
  outcome_errors, join_errors, check_outcomes, verify_references, verify_image_uncached,
  verify_image_info,
}
use notation_aws_verifier.Verify.Registry.{
  RequestVerifier, auth_client, get_auth_client, get_digest, resolve_digest,
  parse_reference_and_resolve_digest,
}
use notation_aws_verifier.Verify.Outcome.Promises.{verify_references_lem, verify_image_info_lem}
use notation_aws_verifier.Verify.Sound.References.{Sound, ImageResult}
use notation_aws_verifier.Verify.Sound.Satisfied.{Satisfied}
use notation_aws_verifier.World.{World, ask}
use notation_aws_verifier.Tests.{
  ToyInfo, toy, toy_laws, toy_assignment, toy_config, toy_world, toy_verifiers, toy_image,
  toy_digest,
}
use notation_aws_verifier.Tests.Verification.{toy_names, toy-Sound}

abbrev toy_verifier : RequestVerifier toy
toy_verifier = record {
  verifier = toy_config;
  notation_verifier = codes "tp.json";
  trust_policy = codes "tp";
  keychain = tt;
  puller = tt;
  plugin_config = [];
}

toy_under : Under toy toy_verifiers (codes "tp") toy_verifier
unfolding lookup ◌==◌ codes
toy_under = record { policy = refl; current = refl }

verify_references_lem_example : NotationVerified toy toy_verifier (codes "reg/app:v1") toy_digest
unfolding verify_references outcome_errors join_errors check_outcomes auth_client get_auth_client
    get_digest resolve_digest parse_reference_and_resolve_digest with_registry with_tag
    complete_reference is_digest_reference get_auth_config_from_keychain wrap attempt ◌>>=◌ ask ◌==◌
    codes contains_char contains_any after_last split_first
verify_references_lem_example =
    verify_references_lem toy toy_laws toy_verifiers toy_verifier (codes "reg/app:v1") toy_world
      toy-Sound toy_digest refl

abbrev toy_verified : ImageInfo ToyInfo
toy_verified = record {
  image = record { info = record { text = codes "reg/app@sha256:aa"; digest = toy_digest } };
  pointer = codes "/spec/containers/0/image";
}

verify_image_info_lem_example :
    ImageResult toy toy_laws toy_verifiers toy_verifier toy_assignment toy_names toy_under toy_image
      toy_verified
unfolding verify_image_info verify_image_uncached create_image_key set_entry find_entry add_image
    get_image verify_references outcome_errors join_errors check_outcomes auth_client
    get_auth_client get_digest resolve_digest parse_reference_and_resolve_digest with_registry
    with_tag complete_reference is_digest_reference get_auth_config_from_keychain wrap attempt ◌>>=◌
    ask ◌==◌ codes contains_char contains_any after_last split_first lookup insert
verify_image_info_lem_example =
    verify_image_info_lem toy toy_laws toy_verifiers toy_verifier toy_assignment toy_names toy_under
      toy_image toy_world toy-Sound toy_verified refl

abbrev toy_list : AttestationList toy.Condition
toy_list = (codes "sbom", record { any_conditions = []; all_conditions = true ∷ [] } ∷ []) ∷ []

abbrev toy_image_list : Map (AttestationList toy.Condition)
toy_image_list = (codes "reg/app@sha256:aa", toy_list) ∷ []

update_notation_verifier-IsSound_example :
    Sound toy toy_laws
      (update_notation_verifier toy toy_world).1.verifiers
      (update_notation_verifier toy toy_world).1
update_notation_verifier-IsSound_example =
    update_notation_verifier-IsSound toy toy_laws toy_world toy-Sound

-- The same world with a directory that cannot be read.
abbrev toy_broken : Deps
toy_broken = record toy { read_dir = λ n path. err (codes "gone") }

abbrev broken_world : World toy_broken
broken_world = record { calls = 0; store = []; verifiers = toy_verifiers }

update_notation_verifier-err_example :
    ((update_notation_verifier toy_broken broken_world).1.verifiers ≡ toy_verifiers)
    × ((update_notation_verifier toy_broken broken_world).1.store ≡ [])
unfolding update_notation_verifier refresh_verifiers read_verifiers ask ◌>>=◌ codes
update_notation_verifier-err_example =
    update_notation_verifier-err toy_broken broken_world (codes "gone") refl
