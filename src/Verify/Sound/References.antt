-- ===== src/Verify/Sound/References.antt =====
-- The evidence behind `verify_references` and `verify_image_info`.
use notation_aws_verifier.Prelude.{
  Str, ℕ, ◌==◌, ==_iff, Bool, true, false, not, ◌&&◌, Option, none, some, List, [], ◌≡◌, inl, inr,
  refl, arith,
}
use notation_aws_verifier.Prelude.Exec.Keeps.{
  Keeps, Keeps-pure, Keeps-fail, Keeps-lift, Keeps-wrap, Keeps-if, Keeps-bind, Keeps-forget,
}
use notation_aws_verifier.Prelude.Map.{Map, lookup}
use notation_aws_verifier.Prelude.Result.{Result, ok}
use notation_aws_verifier.Cache.Keys.{Lacks, create_image_key_inj}
use notation_aws_verifier.Cache.Sound.{
  OnSome, IsSound, ImageHit, Keeps-ask, Keeps-get_image, Keeps-add_image,
}
use notation_aws_verifier.Deps.{Deps, AuthClient, RistrettoLaws, KyvernoLaws}
use notation_aws_verifier.References.{complete_reference}
use notation_aws_verifier.Types.{Image, ImageInfo}
use notation_aws_verifier.Verify.Evidence.{
  Fetched, ResolvedFrom, NotationVerified, Under, ImageOk, AttestationOk,
}
use notation_aws_verifier.Verify.Images.{
  outcome_errors, check_outcomes, verify_references, verify_image_uncached, verify_image_info,
  cached_or_verified,
}
use notation_aws_verifier.Verify.Registry.{
  RequestVerifier, with_client, get_auth_client, get_digest, resolve_digest,
  parse_reference_and_resolve_digest,
}
use notation_aws_verifier.Auth.{get_auth_config_from_keychain}
use notation_aws_verifier.World.{World, ask}

-- A digest comes out only if no outcome has an error.
check_outcomes_lem :
    (digest : Str) (outcomes : List (Option Str)) (s : Str)
    → check_outcomes digest outcomes ≡ ok s
    → (digest ≡ s) × (outcome_errors outcomes ≡ [])
unfolding check_outcomes
check_outcomes_lem digest outcomes s h = ground arith

-- Past the test for a digest mismatch.
agrees_of : (b : Bool) (x y : Str) → (b && not (x == y)) ≡ false → b ≡ true → x ≡ y
agrees_of b x y h p = ground (arith, ==_iff x y)

-- No trust policy of the map is named with a semicolon.
abbrev pub PlainNames : {V : Type 0} → Map V → Type 0
PlainNames {V} vs = (k : Str) (v : V) → lookup k vs ≡ some v → Lacks b';' k

module _ (d : Deps) (laws : RistrettoLaws d.ristretto) (vs : Map d.Verifier) where
  open d use {Info, Reference, Repository}

  -- The invariant of the verifier between the calls.
  abbrev pub Sound : World d → Type 0
  Sound = IsSound d laws (ImageOk d vs) (AttestationOk d vs) vs

  Keeps-asked :
      {A : Type 0} (f : ℕ → Result A) → Keeps Sound (ask d f) (λ a. (n : ℕ) × (f n ≡ ok a))
  Keeps-asked f = Keeps-ask d laws (ImageOk d vs) (AttestationOk d vs) vs f

  module _ (rv : RequestVerifier d) where
    Keeps-get_digest :
        (reference : Str) → Keeps Sound (get_digest d rv reference) (Fetched d rv reference)
    unfolding get_digest
    Keeps-get_digest reference =
        Keeps-bind _ _ (Keeps-wrap _ _ _ (Keeps-lift _ _ (λ name e. e))) (λ name parsed.
          Keeps-bind _ _ (Keeps-wrap _ _ _ (Keeps-asked _)) (λ (s, manifest) (call, got).
            Keeps-if _ _ _ _ (λ _. Keeps-fail _ _)
              (λ same. Keeps-pure s (record {
                name = name;
                parsed = parsed;
                call = call;
                manifest = manifest;
                got = got;
                agrees = agrees_of (d.is_digest name) (d.identifier name) s same;
              }))))

    Keeps-resolve_digest :
        (image : Str) (parsed : Reference)
        → d.parse_registry_reference (complete_reference image) ≡ ok parsed
        → Keeps Sound (resolve_digest d rv parsed) (ResolvedFrom d rv image)
    unfolding resolve_digest
    Keeps-resolve_digest image parsed e =
        Keeps-if _ _ _ _
          (λ named.
            Keeps-pure parsed
              (record { parsed = parsed; completed = e; resolved = inl (named, refl) }))
          (λ _. Keeps-bind _ _ (Keeps-get_digest (d.reference_string parsed)) (λ s fetched.
            Keeps-pure _
              (record { parsed = parsed; completed = e; resolved = inr (s, refl, fetched) })))

    Keeps-get_auth_client : (ref : Reference) → Keeps Sound (get_auth_client d rv ref) (λ _. Unit)
    unfolding get_auth_client get_auth_config_from_keychain
    Keeps-get_auth_client ref =
        Keeps-bind _ _
          (Keeps-bind _ _ (Keeps-asked _)
            (λ a _. Keeps-forget _ _ (Keeps-wrap _ _ _ (Keeps-asked _))))
          (λ c _. Keeps-pure _ tt)

    -- The repository was opened at the completed reference.
    abbrev OpenedFrom : Str → Repository → Type 0
    OpenedFrom image repo =
        (base : Repository) × (client : Option AuthClient) × (d.new_repository
            (complete_reference image)
          ≡ ok base)
        × (repo ≡ with_client d rv base client)

    Keeps-parse :
        (image : Str)
        → Keeps Sound
            (parse_reference_and_resolve_digest d rv image)
            (λ p. ResolvedFrom d rv image p.1 × OpenedFrom image p.0)
    unfolding parse_reference_and_resolve_digest
    Keeps-parse image =
        Keeps-bind _ _ (Keeps-wrap _ _ _ (Keeps-lift _ _ (λ parsed e. e))) (λ parsed e.
          Keeps-bind _ _ (Keeps-wrap _ _ _ (Keeps-get_auth_client parsed)) (λ client _.
            Keeps-bind _ _ (Keeps-wrap _ _ _ (Keeps-lift _ _ (λ repo e. e))) (λ repo opened.
              Keeps-bind _ _ (Keeps-wrap _ _ _ (Keeps-resolve_digest image parsed e))
                (λ resolved r. Keeps-pure _ (r, (repo, client, opened, refl))))))

    -- A digest that `verify_references` returns is one that notation verified.
    pub Keeps-verify_references :
        (image : Str) → Keeps Sound (verify_references d rv image) (NotationVerified d rv image)
    unfolding verify_references
    Keeps-verify_references image =
        Keeps-bind _ _ (Keeps-wrap _ _ _ (Keeps-parse image))
          (λ (repo, reference) (resolution, (base, client, opened, with_it)).
            Keeps-bind _ _ (Keeps-asked _) (λ (digest, outcomes) (call, accepted).
              Keeps-lift _ _ (λ s e.
                let (same, clean) = check_outcomes_lem digest outcomes s e in
                record {
                  reference = reference;
                  resolution = resolution;
                  base = base;
                  opened = opened;
                  client = client;
                  call = call;
                  outcomes = outcomes;
                  accepted = rw (same, with_it) at accepted;
                  no_errors = clean;
                })))

    module _ (kl : KyvernoLaws d.kyverno) (names : PlainNames vs)
        (under : Under d vs rv.trust_policy rv) where
      -- A cached image was verified under the same trust policy for the same reference.
      hit-ImageOk :
          (r : Str) (o : Option (Image Info))
          → OnSome (ImageHit d laws (ImageOk d vs) (AttestationOk d vs) vs rv.trust_policy r) o
          → OnSome (ImageOk d vs rv.trust_policy r) o
      hit-ImageOk r none h = tt
      hit-ImageOk r (some i) (q, s, e, ev) =
          let (same_policy, same_ref) =
            create_image_key_inj rv.trust_policy q r s
              (names rv.trust_policy rv.notation_verifier under.current)
              (names q ev.0.notation_verifier ev.1.current) e in
          rw (same_policy, same_ref) ev

      -- What `verify_image_info` returns: the image with the same pointer, verified.
      abbrev pub ImageResult : ImageInfo Info → ImageInfo Info → Type 0
      ImageResult image result =
          (result.pointer ≡ image.pointer)
          × ImageOk d vs rv.trust_policy (d.info_string image.image.info) result.image

      Keeps-verify_image_uncached :
          (image : ImageInfo Info)
          → Keeps Sound (verify_image_uncached d rv image) (ImageResult image)
      unfolding verify_image_uncached
      Keeps-verify_image_uncached image =
          let ref = d.info_string image.image.info in
          Keeps-bind _ _ (Keeps-wrap _ _ _ (Keeps-verify_references ref)) (λ digest verified.
            let evidence : ImageOk d vs rv.trust_policy ref
                (record { info = d.with_digest image.image.info digest }) =
              (rv, under, rw (kl.digest_with_digest image.image.info digest) verified) in
            Keeps-bind _ _
              (Keeps-wrap _ _ _ (
                Keeps-add_image d laws (ImageOk d vs) (AttestationOk d vs) vs rv.verifier.cache
                  rv.trust_policy ref _ evidence))
              (λ _ _. Keeps-pure _ (refl, evidence)))

      Keeps-cached_or_verified :
          (image : ImageInfo Info) (o : Option (Image Info))
          → OnSome (ImageOk d vs rv.trust_policy (d.info_string image.image.info)) o
          → Keeps Sound (cached_or_verified d rv image o) (ImageResult image)
      Keeps-cached_or_verified image none h = Keeps-verify_image_uncached image
      Keeps-cached_or_verified image (some i) h = Keeps-pure _ (refl, h)

      -- An image comes back verified under the trust policy of the request, from the cache or not.
      pub Keeps-verify_image_info :
          (image : ImageInfo Info) → Keeps Sound (verify_image_info d rv image) (ImageResult image)
      unfolding verify_image_info
      Keeps-verify_image_info image =
          Keeps-bind _ _
            (Keeps-get_image d laws (ImageOk d vs) (AttestationOk d vs) vs rv.verifier.cache
              rv.trust_policy (d.info_string image.image.info))
            (λ o h. Keeps-cached_or_verified image o (hit-ImageOk _ o h))
