-- ===== src/Verify/Sound/Attestations.antt =====
-- The evidence behind the conditions of one attestation, and the entries that a `range` yields.
use notation_aws_verifier.Prelude.{Str, ℕ, some, List, [], ◌∷◌, ◌≡◌, refl, In, arith}
use notation_aws_verifier.Prelude.Exec.Keeps.{
  Keeps, Keeps-pure, Keeps-fail, Keeps-lift, Keeps-wrap, Keeps-if, Keeps-bind, Keeps-map,
}
use notation_aws_verifier.Prelude.Map.{
  Map, lookup, keys, entries_at, In-entries_at, lookup-eq-some-count,
}
use notation_aws_verifier.Prelude.Result.{Result, ok}
use notation_aws_verifier.Cache.Sound.{Keeps-ask}
use notation_aws_verifier.Deps.{Deps, Descriptor, RistrettoLaws, RangeLaws}
use notation_aws_verifier.Types.{AnyAllConditions}
use notation_aws_verifier.Verify.Attestations.{
  payload_digest, fetch_and_extract_payload, verify_conditions,
}
use notation_aws_verifier.Verify.Evidence.{Extracted, ConditionsHold, ImageOk, AttestationOk}
use notation_aws_verifier.Verify.Registry.{RequestVerifier, range}
use notation_aws_verifier.Verify.Sound.References.{Sound}
use notation_aws_verifier.World.{World, ask}

module _ (d : Deps) (laws : RistrettoLaws d.ristretto) (vs : Map d.Verifier) where
  open d use {Info, Condition, Name, Payload, Manifest}

  abbrev pub P : World d → Type 0
  P = Sound d laws vs

  pub Keeps-asked :
      {A : Type 0} (f : ℕ → Result A) → Keeps P (ask d f) (λ a. (n : ℕ) × (f n ≡ ok a))
  Keeps-asked f = Keeps-ask d laws (ImageOk d vs) (AttestationOk d vs) vs f

  In-range :
      {V : Type 0}
      → RangeLaws d
      → (m : Map V) (n : ℕ) (es : Map V)
      → ◌≡◌ {A = Result (Map V)} (ok (entries_at (d.range_order n (keys m)) m)) (ok es)
      → (k : Str) (v : V) → lookup k m ≡ some v
      → In (k, v) es
  In-range fair m n es e k v found =
      let p : entries_at (d.range_order n (keys m)) m ≡ es = cc in
      rw (← p) (
        In-entries_at k v (d.range_order n (keys m)) m found
          (omega (arith, fair.count_order n (keys m) k, lookup-eq-some-count k v m found)))

  -- A `range` misses no entry.
  pub Keeps-range :
      {V : Type 0}
      → RangeLaws d
      → (m : Map V)
      → Keeps P (range d m) (λ es. (k : Str) (v : V) → lookup k m ≡ some v → In (k, v) es)
  unfolding range
  Keeps-range fair m =
      Keeps-map _ _ _ (λ es (n, e) k v found. In-range fair m n es e k v found)
        (Keeps-asked (λ n. ok (entries_at (d.range_order n (keys m)) m)))

  module _ (rv : RequestVerifier d) where
    Keeps-payload_digest :
        (manifest : Manifest) (ls : List Str)
        → Keeps P (payload_digest d rv manifest ls) (λ s. ls ≡ s ∷ [])
    unfolding payload_digest
    Keeps-payload_digest manifest [] = Keeps-fail _ _
    Keeps-payload_digest manifest (s ∷ []) = Keeps-pure s refl
    Keeps-payload_digest manifest (s ∷ t ∷ ls) = Keeps-fail _ _

    Keeps-fetch_and_extract_payload :
        (repo_ref : Name) (desc : Descriptor)
        → Keeps P (fetch_and_extract_payload d rv repo_ref desc) (Extracted d rv repo_ref desc)
    unfolding fetch_and_extract_payload
    Keeps-fetch_and_extract_payload repo_ref desc =
        Keeps-bind _ _ (Keeps-wrap _ _ _ (Keeps-asked _)) (λ (digest, bytes) (call, got).
          Keeps-bind _ _ (Keeps-lift _ _ (λ manifest e. e)) (λ manifest unmarshalled.
            Keeps-bind _ _ (Keeps-payload_digest manifest (d.layers manifest)) (λ s only.
              Keeps-bind _ _ (Keeps-asked _) (λ l (layer_call, got_layer).
                Keeps-bind _ _ (Keeps-asked _) (λ predicate (read_call, read).
                  Keeps-lift _ _ (λ payload decoded. record {
                    digest = digest;
                    bytes = bytes;
                    call = call;
                    got = got;
                    manifest = manifest;
                    unmarshalled = unmarshalled;
                    payload_digest = s;
                    only_layer = only;
                    layer_call = layer_call;
                    layer = l;
                    got_layer = got_layer;
                    read_call = read_call;
                    predicate = predicate;
                    read = read;
                    decoded = decoded;
                  }))))))

    pub Keeps-verify_conditions :
        (repo_ref : Name) (desc : Descriptor) (cs : List (AnyAllConditions Condition))
        → Keeps P
            (verify_conditions d rv repo_ref desc cs)
            (λ _. ConditionsHold d rv repo_ref desc cs)
    unfolding verify_conditions
    Keeps-verify_conditions repo_ref desc cs =
        Keeps-bind _ _ (Keeps-fetch_and_extract_payload repo_ref desc) (λ payload extracted.
          Keeps-bind _ _ (Keeps-wrap _ _ _ (Keeps-lift _ _ (λ context e. e))) (λ context added.
            Keeps-bind _ _ (Keeps-asked _) (λ (val, msg) (call, evaluated).
              Keeps-if val _ _ _
                (λ holds. Keeps-pure tt (record {
                  payload = payload;
                  extracted = extracted;
                  context = context;
                  added = added;
                  call = call;
                  message = msg;
                  evaluated = rw holds at evaluated;
                }))
                (λ _. Keeps-fail _ _))))
