-- ===== src/References.antt =====
-- The texts of image references in internal/verifier/verify.go: what a reference is completed to,
-- whether it names a digest, which images a request selects.
pub mod Complete
use notation_aws_verifier.Prelude.{
  Str, codes, ℕ, ◌==◌, ◌++◌, Bool, true, false, not, Option, none, some, List, [], ◌∷◌, is_empty,
  any, if◌then◌else◌,
}
use notation_aws_verifier.Prelude.Text.Scan.{contains_char, contains_any, after_last, split_first}
use notation_aws_verifier.Prelude.Map.{Map, lookup, insert}
use notation_aws_verifier.Prelude.Result.{Result, ok, err}
use notation_aws_verifier.Deps.{Deps, Descriptor}

-- A reference without a registry is one of Docker Hub's library.
unfoldable pub with_registry : Str → Str
with_registry ref = if not (contains_char ref b'/') then codes "docker.io/library/" ++ ref else ref

-- Only the last path element is searched for a tag or a digest.
unfoldable pub with_tag : Str → Str
with_tag ref =
    if not (contains_any (after_last ref b'/') (codes ":@")) then ref ++ codes ":latest" else ref

-- The first two steps of `parseReferenceAndResolveDigest`.
unfoldable pub complete_reference : Str → Str
complete_reference ref = with_tag (with_registry ref)

abbrev digest_part : Option (Str × Str) → Bool
digest_part none = false
digest_part (some (registry, path)) = contains_char path b'@'

unfoldable pub is_digest_reference : Str → Bool
is_digest_reference reference = digest_part (split_first reference b'/')

module _ (d : Deps) where
  open d use {Name, name_string, registry_str, repository_str, wildcard_match, default_trust_policy}

  unfoldable pub get_reference : Str → Name → Str
  get_reference digest ref =
      if is_empty digest
      then name_string ref
      else registry_str ref ++ (codes "/" ++ (repository_str ref ++ (codes "@" ++ digest)))

  unfoldable pub get_trust_policy : Str → Str
  get_trust_policy trust_policy =
      if is_empty trust_policy then default_trust_policy else trust_policy

  unfoldable pub match_image_references : List Str → Str → Bool
  match_image_references refs image =
      if is_empty refs then true else any (λ ref. wildcard_match ref image) refs

-- `refList`: the artifact types among the referrers.
unfoldable pub ref_list : List Descriptor → Map Bool
ref_list [] = []
ref_list (r ∷ rs) = insert r.artifact_type true (ref_list rs)

-- The types in the order in which the loop visits them, and the artifact types that are there.
unfoldable pub match_types : Str → List Str → Map Bool → Result (Unit {0})
match_types image [] refs = ok tt
match_types image (att ∷ atts) refs =
    let rest = match_types image atts refs in
    elim (lookup att refs) [
      | some _ ↦ rest
      | none ↦ err (codes "failed to find attestation " ++ (att ++ (codes " in image " ++ image)))
    ]

unfoldable pub match_attestations : Str → List Str → List Descriptor → Result (Unit {0})
unfolding match_types ref_list
match_attestations image types referrers = match_types image types (ref_list referrers)
