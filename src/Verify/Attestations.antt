-- ===== src/Verify/Attestations.antt =====
-- The attestations of an image in internal/verifier/verify.go.
use notation_aws_verifier.Prelude.{
  Str, codes, ◌++◌, Bool, true, false, Option, none, some, List, [], ◌∷◌, is_empty, if◌then◌else◌,
}
use notation_aws_verifier.Prelude.Exec.{Exec, pure, fail, lift, wrap, ◌>>=◌}
use notation_aws_verifier.Prelude.Map.{Map, keys, lookup}
use notation_aws_verifier.Cache.{get_attestation, add_attestation}
use notation_aws_verifier.Deps.{Deps, Descriptor}
use notation_aws_verifier.References.{get_reference, match_attestations}
use notation_aws_verifier.Types.{AnyAllConditions, AttestationList}
use notation_aws_verifier.Verify.Images.{verify_references}
use notation_aws_verifier.Verify.Registry.{RequestVerifier, range}
use notation_aws_verifier.World.{World, ask}

module _ (d : Deps) (rv : RequestVerifier d) where
  open d use {
    Condition, Payload, Name, Manifest, parse_name, name_string, at_digest, head, get, referrers,
    index_manifest, unmarshal_manifest, layers, manifest_text, layer, uncompressed, decode_payload,
    new_context, add_json_object, evaluate_any_all_conditions,
  }

  -- The only layer of a statement.
  unfoldable pub payload_digest : Manifest → List Str → Exec (World d) Str
  payload_digest manifest [] = fail (codes "no predicate found: " ++ manifest_text manifest)
  payload_digest manifest (digest ∷ []) = pure digest
  payload_digest manifest (digest ∷ other ∷ rest) =
      fail (codes "multiple layers in predicate not supported: " ++ manifest_text manifest)

  unfoldable pub fetch_and_extract_payload : Name → Descriptor → Exec (World d) Payload
  unfolding payload_digest
  fetch_and_extract_payload repo_ref desc = do
    let ref = at_digest repo_ref desc.digest
    (digest, bytes) ←
        wrap (λ e. codes "error in fetching statement: " ++ e)
          (ask d (λ n. get n rv.keychain rv.puller ref))
    manifest ← lift (unmarshal_manifest bytes)
    payload ← payload_digest manifest (layers manifest)
    l ← ask d (λ n. layer n rv.keychain rv.puller (at_digest repo_ref payload))
    predicate ← ask d (λ n. uncompressed n l)
    lift (decode_payload predicate)

  unfoldable pub verify_conditions :
      Name → Descriptor → List (AnyAllConditions Condition) → Exec (World d) (Unit {0})
  unfolding fetch_and_extract_payload
  verify_conditions repo_ref desc conditions = do
    payload ← fetch_and_extract_payload repo_ref desc
    context ←
        wrap (λ e. codes "failed to add Statement to the context: " ++ e)
          (lift (add_json_object new_context payload))
    (val, msg) ← ask d (λ n. evaluate_any_all_conditions n context conditions)
    if val then pure tt else fail (codes "failed to evaluate conditions: " ++ msg)

  -- The rest of the loop's body behind a miss of the cache.
  unfoldable pub verify_referrer_uncached :
      Str → Name → Descriptor → List (AnyAllConditions Condition) → Exec (World d) (Unit {0})
  verify_referrer_uncached image ref referrer conditions = do
    let at = name_string ref ++ (codes " " ++ referrer.digest)
    digest ←
        wrap
          (λ e.
            codes "failed to get referrer of artifact type "
            ++ (at ++ (codes " " ++ (referrer.artifact_type ++ (codes ": " ++ e)))))
          (verify_references d rv (get_reference d referrer.digest ref))
    if is_empty digest then pure tt else do
      checked ←
          if is_empty conditions
          then pure tt
          else wrap (λ e. codes "failed to verify conditions " ++ (at ++ (codes ": " ++ e)))
              (verify_conditions ref referrer conditions)
      wrap
          (λ e.
            codes "failed to add attestation to the cache image="
            ++ (name_string ref ++ (codes ", digest=" ++ (referrer.digest ++ (codes ": " ++ e)))))
          (add_attestation d rv.verifier.cache rv.trust_policy image referrer.artifact_type
            conditions)

  abbrev pub verify_required :
      Str
      → Name
      → Descriptor
      → Option (List (AnyAllConditions Condition))
      → Exec (World d) (Unit {0})
  verify_required image ref referrer none = pure tt
  verify_required image ref referrer (some conditions) = do
    cached ←
        get_attestation d rv.verifier.cache rv.trust_policy image referrer.artifact_type conditions
    if cached then pure tt else verify_referrer_uncached image ref referrer conditions

  -- `for _, referrer := range referrersDescs.Manifests`
  unfoldable pub verify_referrers :
      Str → Name → AttestationList Condition → List Descriptor → Exec (World d) (Unit {0})
  unfolding verify_referrer_uncached
  verify_referrers image ref list [] = pure tt
  verify_referrers image ref list (r ∷ rs) = do
    checked ← verify_required image ref r (lookup r.artifact_type list)
    verify_referrers image ref list rs

  -- The loop of `checkAllAttestationsForImage`, over the entries in its order.
  unfoldable pub check_entries : Str → AttestationList Condition → Exec (World d) Bool
  check_entries image [] = pure true
  check_entries image ((attestation, conditions) ∷ rest) = do
    found ← get_attestation d rv.verifier.cache rv.trust_policy image attestation conditions
    let others = check_entries image rest
    if found then others else pure false

  unfoldable pub check_all_attestations_for_image :
      Str → AttestationList Condition → Exec (World d) Bool
  unfolding check_entries range
  check_all_attestations_for_image image list = do
    entries ← range d list
    check_entries image entries

  -- The part of `verifyAttestation` behind the cache.
  unfoldable pub verify_attestation_uncached :
      Str → AttestationList Condition → Exec (World d) (Unit {0})
  unfolding verify_referrers range
  verify_attestation_uncached image list = do
    ref ←
        wrap (λ e. codes "failed to parse image reference: " ++ (image ++ (codes ": " ++ e)))
          (lift (parse_name image))
    desc ←
        wrap (λ e. codes "failed to get gcr remote head: " ++ e)
          (ask d (λ n. head n rv.keychain rv.puller ref))
    index ←
        wrap (λ e. codes "failed to get gcr remote referrers: " ++ e)
          (ask d (λ n. referrers n rv.keychain rv.puller (at_digest ref desc.digest)))
    manifests ← ask d (λ n. index_manifest n index)
    entries ← range d list
    matched ← lift (match_attestations image (keys entries) manifests)
    verify_referrers image ref list manifests

  unfoldable pub verify_attestation : Str → AttestationList Condition → Exec (World d) (Unit {0})
  unfolding check_all_attestations_for_image verify_attestation_uncached
  verify_attestation image list = if is_empty list then pure tt else do
    found ← check_all_attestations_for_image image list
    if found then pure tt else verify_attestation_uncached image list

  unfoldable pub verify_each : Map (AttestationList Condition) → Exec (World d) (Unit {0})
  unfolding verify_attestation
  verify_each [] = pure tt
  verify_each ((image, list) ∷ rest) = do
    checked ←
        wrap (λ e. codes "failed to verify attestations: " ++ e) (verify_attestation image list)
    verify_each rest

  unfoldable pub verify_attestations : Map (AttestationList Condition) → Exec (World d) (Unit {0})
  unfolding verify_each range
  verify_attestations image_list = do entries ← range d image_list; verify_each entries
