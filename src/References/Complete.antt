-- ===== src/References/Complete.antt =====
-- Laws of the completed references, and of the match of attestations against referrers.
use notation_aws_verifier.Prelude.{
  Str, codes, ◌==◌, true, false, none, List, [], ◌∷◌, ◌≡◌, ◌↔◌, refl, arith, All, any,
}
use notation_aws_verifier.Prelude.Text.Scan.{
  contains_char, contains_any, after_last, contains_char-append, contains_any-append,
  after_last-append_plain,
}
use notation_aws_verifier.Prelude.Map.{lookup, lookup-insert}
use notation_aws_verifier.Prelude.Result.{ok}
use notation_aws_verifier.Deps.{Descriptor}
use notation_aws_verifier.References.{
  with_registry, with_tag, complete_reference, ref_list, match_types, match_attestations,
}

-- A reference with a registry or a path, and a tag or a digest in its last element.
pub record IsComplete (ref : Str) : Type 0 where
  pub slash : contains_char ref b'/' ≡ true
  pub tagged : contains_any (after_last ref b'/') (codes ":@") ≡ true

with_registry-slash : (ref : Str) → contains_char (with_registry ref) b'/' ≡ true
unfolding with_registry
with_registry-slash ref =
    let pre : contains_char (codes "docker.io/library/") b'/' ≡ true =
      unfold contains_char codes in refl in
    ground (arith, contains_char-append (codes "docker.io/library/") ref b'/')

with_tag-IsComplete : (ref : Str) → contains_char ref b'/' ≡ true → IsComplete (with_tag ref)
unfolding with_tag
with_tag-IsComplete ref h =
    let plain : contains_char (codes ":latest") b'/' ≡ false = unfold contains_char codes in refl in
    let tag : contains_any (codes ":latest") (codes ":@") ≡ true =
      unfold contains_any contains_char codes in refl in
    record {
      slash = ground (arith, contains_char-append ref (codes ":latest") b'/');
      tagged = ground (
        arith,
        after_last-append_plain ref (codes ":latest") b'/',
        contains_any-append (after_last ref b'/') (codes ":latest") (codes ":@"),
      );
    }

-- Every completed reference has a slash, and a tag or a digest in its last element.
pub complete_reference-IsComplete : (ref : Str) → IsComplete (complete_reference ref)
unfolding complete_reference
complete_reference-IsComplete ref =
    with_tag-IsComplete (with_registry ref) (with_registry-slash ref)

-- A reference that is complete stays as it is.
pub complete_reference_of_IsComplete : (ref : Str) → IsComplete ref → complete_reference ref ≡ ref
unfolding complete_reference with_registry with_tag
complete_reference_of_IsComplete ref h = ground arith

-- Completing adds no semicolon and removes none.
pub contains_char-complete_reference :
    (ref : Str) → contains_char (complete_reference ref) b';' ≡ contains_char ref b';'
unfolding complete_reference with_registry with_tag
contains_char-complete_reference ref =
    let plain : contains_char (codes ":latest") b';' ≡ false = unfold contains_char codes in refl in
    let pre : contains_char (codes "docker.io/library/") b';' ≡ false =
      unfold contains_char codes in refl in
    grind (arith, contains_char-append)

-- The type is among the artifact types of the referrers.
abbrev pub IsPresent : List Descriptor → Str → Type 0
IsPresent rs t = any (λ (r : Descriptor). r.artifact_type == t) rs ≡ true

lookup-ref_list :
    (t : Str) (rs : List Descriptor)
    → (lookup t (ref_list rs) ≡ none) ↔ (any (λ (r : Descriptor). r.artifact_type == t) rs ≡ false)
unfolding ref_list lookup
lookup-ref_list t [] = (λ _. refl, λ _. refl)
lookup-ref_list t (r ∷ rs) = (
  λ h. ground (arith, lookup-insert r.artifact_type t true (ref_list rs), lookup-ref_list t rs),
  λ h. ground (arith, lookup-insert r.artifact_type t true (ref_list rs), lookup-ref_list t rs),
)

match_types_iff :
    (image : Str) (ts : List Str) (rs : List Descriptor)
    → (match_types image ts (ref_list rs) ≡ ok tt) ↔ All (IsPresent rs) ts
unfolding match_types
match_types_iff image [] rs = (λ _. tt, λ _. refl)
match_types_iff image (t ∷ ts) rs = (
  λ h. ground (arith, lookup-ref_list t rs, match_types_iff image ts rs),
  λ h. ground (arith, lookup-ref_list t rs, match_types_iff image ts rs),
)

-- The match succeeds exactly when each required type is the artifact type of some referrer.
pub match_attestations_iff :
    (image : Str) (types : List Str) (referrers : List Descriptor)
    → (match_attestations image types referrers ≡ ok tt) ↔ All (IsPresent referrers) types
unfolding match_attestations
match_attestations_iff image types referrers = match_types_iff image types referrers
