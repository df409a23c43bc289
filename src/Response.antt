-- ===== src/Response.antt =====
-- internal/verifier/response.go: the response under construction, with the attestations that each
-- verified image must carry.
pub mod Required
pub mod Build
use mathlib.Core.Option
use notation_aws_verifier.Prelude.{
  Str, codes, ℕ, suc, ◌==◌, ◌++◌, Bool, true, false, not, ◌||◌, Option, none, some, List, [], ◌∷◌,
}
use notation_aws_verifier.Prelude.{is_empty, if◌then◌else◌}
use notation_aws_verifier.Prelude.Map.{Map, keys, lookup, insert}
use notation_aws_verifier.Prelude.Result.{Result, ok, err, ◌>>=◌}
use notation_aws_verifier.Types.{
  ImageInfo, AttestationType, AttestationsInfo, AttestationList, Operation, ResponseData,
}
use notation_aws_verifier.Deps.{Kyverno}

pub record Response (Condition : Type 0) : Type 0 where
  pub image_list : Map (AttestationList Condition)
  pub response_data : ResponseData

module _ (k : Kyverno) where
  open k use {Info, Condition, info_string, wildcard_match}

  unfoldable pub new_response : Response Condition
  new_response = record {
    image_list = [];
    response_data = record { verified = true; error_message = []; results = [] };
  }

  unfoldable pub add_image : Str → ImageInfo Info → Response Condition → Response Condition
  add_image image_ref img r = record r {
    response_data = record r.response_data {
      results =
          r.response_data.results
          ++ (record {
            operation = codes "replace";
            path = img.pointer;
            value = info_string img.image.info;
          }
              ∷ []);
    };
    image_list = insert image_ref [] r.image_list;
  }

  -- The writes of `addAttestations` to the map of one image.
  unfoldable pub add_type :
      AttestationType Condition → AttestationList Condition → AttestationList Condition
  add_type att l =
      let known : AttestationList Condition = elim (lookup att.name l) [
        | none ↦ insert att.name [] l
        | some cs ↦ l
      ] in
      if not (is_empty att.conditions.all_conditions)
        || not (is_empty att.conditions.any_conditions)
      then insert att.name (Option.get_or (lookup att.name known) [] ++ (att.conditions ∷ [])) known
      else known

  unfoldable pub add_attestations :
      Str → AttestationType Condition → Response Condition → Result (Response Condition)
  add_attestations img att r = elim (lookup img r.image_list) [
    | none ↦ err (codes "image not found in image list")
    | some l ↦ ok (record r { image_list = insert img (add_type att l) r.image_list })
  ]

  unfoldable pub verification_failed : Str → Response Condition → ResponseData
  verification_failed msg r = record r.response_data {
    verified = false;
    error_message = msg;
    results = [];
  }

  unfoldable pub verification_succeeded : Str → Response Condition → ResponseData
  verification_succeeded msg r = record r.response_data { error_message = msg }

  -- `for _, attestationType := range attestation.Type`
  unfoldable pub add_all_types :
      Str → List (AttestationType Condition) → Response Condition → Result (Response Condition)
  add_all_types img [] r = ok r
  add_all_types img (t ∷ ts) r = do r' ← add_attestations img t r; add_all_types img ts r'

  -- `for image := range r.imageList`, over the keys in the order of this loop.
  unfoldable pub add_to_images :
      AttestationsInfo Condition → List Str → Response Condition → Result (Response Condition)
  add_to_images a [] r = ok r
  add_to_images a (img ∷ imgs) r =
      (if wildcard_match a.image_reference img then add_all_types img a.types r else ok r)
      >>= add_to_images a imgs

  -- The order of the `n`-th loop over the map is `order n`.
  unfoldable pub build_attestation_list :
      (ℕ → List Str → List Str)
      → ℕ
      → List (AttestationsInfo Condition)
      → Response Condition
      → Result (Response Condition)
  build_attestation_list order n [] r = ok r
  build_attestation_list order n (a ∷ as') r = do
    r' ← add_to_images a (order n (keys r.image_list)) r
    build_attestation_list order (suc n) as' r'
