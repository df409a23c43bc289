-- ===== src/Verify/Outcome/Progress.antt =====
-- What the loop over the images keeps true of the response, and what it has to show for each
-- image.
use notation_aws_verifier.Prelude.{
  Str, codes, ==_refl, Bool-cases, true, none, some, List, [], ◌∷◌, ◌≡◌, ◌≢◌, ◌⊎◌, inl, inr, refl,
  is_empty, eq-nil, ne-nil, All, All-append, In, In-append_left, In-append_right, arith,
}
use notation_aws_verifier.Prelude.Map.{Map, lookup, NodupKeys, insert-NodupKeys, lookup-insert}
use notation_aws_verifier.Deps.{Deps, RistrettoLaws, KyvernoLaws}
use notation_aws_verifier.References.{match_image_references}
use notation_aws_verifier.Response.{Response, add_image}
use notation_aws_verifier.Types.{ImageInfo, AttestationList, Operation}
use notation_aws_verifier.Verify.{report}
use notation_aws_verifier.Verify.Evidence.{Under}
use notation_aws_verifier.Verify.Registry.{RequestVerifier}
use notation_aws_verifier.Verify.Sound.References.{PlainNames, ImageResult}

module _ (d : Deps) (laws : RistrettoLaws d.ristretto) (kl : KyvernoLaws d.kyverno)
    (vs : Map d.Verifier) (names : PlainNames vs) (rv : RequestVerifier d)
    (under : Under d vs rv.trust_policy rv) where
  open d use {Info, Condition, info_string, info_digest}

  abbrev pub Verified : ImageInfo Info → ImageInfo Info → Type 0
  Verified = ImageResult d laws vs rv kl names under

  -- The patch of a verified image.
  abbrev pub replacement : ImageInfo Info → Operation
  replacement result = record {
    operation = codes "replace";
    path = result.pointer;
    value = info_string result.image.info;
  }

  -- The patch is that of an image that was verified, with its digest.
  abbrev pub Backed : Operation → Type 0
  Backed op =
      (image : ImageInfo Info) × (result : ImageInfo Info) × Verified image result
      × (info_digest result.image.info ≢ [])
      × (op ≡ replacement result)

  -- No image has attestations yet.
  abbrev pub NoneRequired : Response Condition → Type 0
  NoneRequired r =
      (j : Str) (l : AttestationList Condition) → lookup j r.image_list ≡ some l → l ≡ []

  -- What `r` reports, `r'` reports.
  pub record Extends (r r' : Response Condition) : Type 0 where
    pub grows : (op : Operation) → In op r.response_data.results → In op r'.response_data.results
    pub listed : (j : Str) → lookup j r.image_list ≢ none → lookup j r'.image_list ≢ none

  pub record Progress (r r' : Response Condition) : Type 0 where
    pub extends : Extends r r'
    pub backed : All Backed r.response_data.results → All Backed r'.response_data.results
    pub none_required : NoneRequired r → NoneRequired r'
    pub nodup : NodupKeys r.image_list → NodupKeys r'.image_list

  pub Progress-refl : (r : Response Condition) → Progress r r
  Progress-refl r = record {
    extends = record { grows = λ op i. i; listed = λ j l. l };
    backed = λ b. b;
    none_required = λ e. e;
    nodup = λ n. n;
  }

  pub Progress-trans : (r s t : Response Condition) → Progress r s → Progress s t → Progress r t
  Progress-trans r s t p q = record {
    extends = record {
      grows = λ op i. q.extends.grows op (p.extends.grows op i);
      listed = λ j l. q.extends.listed j (p.extends.listed j l);
    };
    backed = λ b. q.backed (p.backed b);
    none_required = λ e. q.none_required (p.none_required e);
    nodup = λ n. q.nodup (p.nodup n);
  }

  add_image-Progress :
      (ref : Str) (image result : ImageInfo Info) (r : Response Condition)
      → Verified image result
      → info_digest result.image.info ≢ []
      → Progress r (add_image d.kyverno ref result r)
  unfolding add_image
  add_image-Progress ref image result r v nonempty = record {
    extends = record {
      grows = λ op i. In-append_left r.response_data.results _ op i;
      listed = λ j l. λ e. ground (arith, lookup-insert ref j [] r.image_list);
    };
    backed = λ b.
        All-append Backed r.response_data.results (replacement result ∷ []) b
          ((image, result, v, nonempty, refl), tt);
    none_required = λ h j l e. ground (arith, lookup-insert ref j [] r.image_list, h j l);
    nodup = insert-NodupKeys ref [] r.image_list;
  }

  added :
      (ref : Str) (result : ImageInfo Info) (r : Response Condition)
      → (let r' = add_image d.kyverno ref result r in
          In (replacement result) r'.response_data.results × (lookup ref r'.image_list ≢ none))
  unfolding add_image
  added ref result r = (
    In-append_right r.response_data.results _ (replacement result) (inl refl),
    λ e. ground (arith, lookup-insert ref ref [] r.image_list, ==_refl ref),
  )

  -- A verified image is skipped by the trust policy, or patched and in the list of images.
  abbrev pub Reported : ImageInfo Info → ImageInfo Info → Response Condition → Type 0
  Reported image result r =
      (info_digest result.image.info ≡ [])
      ⊎ (In (replacement result) r.response_data.results
          × (lookup (info_string image.image.info) r.image_list ≢ none))

  -- An image that the request selects is verified and reported.
  abbrev pub Checked : List Str → ImageInfo Info → Response Condition → Type 0
  Checked refs image r =
      match_image_references d refs (info_string image.image.info) ≡ true
      → (result : ImageInfo Info) × Verified image result × Reported image result r

  pub Checked-Extends :
      (refs : List Str) (image : ImageInfo Info) (r r' : Response Condition)
      → Extends r r'
      → Checked refs image r
      → Checked refs image r'
  Checked-Extends refs image r r' p c selected =
      let (result, v, reported) = c selected in (result, v, still result reported)
    where
      still : (result : ImageInfo Info) → Reported image result r → Reported image result r'
      still result (inl skipped) = inl skipped
      still result (inr (patched, listed)) =
          inr (p.grows (replacement result) patched, p.listed (info_string image.image.info) listed)

  pub report_lem :
      (refs : List Str) (image result : ImageInfo Info) (r : Response Condition)
      → Verified image result
      → (let r' = report d rv refs (info_string image.image.info) result r in
          Progress r r' × Checked refs image r')
  report_lem refs image result r v = elim (Bool-cases (is_empty (info_digest result.image.info))) [
    | inl skipped ↦
        rw skipped
          (Progress-refl r, λ _. (result, v, inl (eq-nil (info_digest result.image.info) skipped)))
    | inr found ↦ rw found (
      add_image-Progress (info_string image.image.info) image result r v
          (ne-nil (info_digest result.image.info) found),
      λ _. (result, v, inr (added (info_string image.image.info) result r)),
    )
  ]
