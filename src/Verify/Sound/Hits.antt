-- ===== src/Verify/Sound/Hits.antt =====
-- What a hit of an attestation in the cache stands for.
use notation_aws_verifier.Prelude.{Str, true, List, ◌≡◌, ◌⊎◌, inl, inr, ◌++◌, Bool-cases, arith}
use notation_aws_verifier.Prelude.Map.{Map}
use notation_aws_verifier.Prelude.Result.{ok}
use notation_aws_verifier.Cache.{create_attestation_key}
use notation_aws_verifier.Cache.Keys.{Lacks-append, create_attestation_key_inj, image_key-semicolon}
use notation_aws_verifier.Prelude.Text.Scan.{contains_char, contains_char-append}
use notation_aws_verifier.Cache.Sound.{Justified, AttestationHit}
use notation_aws_verifier.Deps.{Deps, Entry, image, attestation_verified, RistrettoLaws}
use notation_aws_verifier.Types.{AnyAllConditions}
use notation_aws_verifier.Verify.Evidence.{Under, ImageOk, AttestationOk}
use notation_aws_verifier.Verify.Registry.{RequestVerifier}
use notation_aws_verifier.Verify.Sound.References.{PlainNames}

module _ (d : Deps) (laws : RistrettoLaws d.ristretto) (vs : Map d.Verifier)
    (rv : RequestVerifier d) (under : Under d vs rv.trust_policy rv) (names : PlainNames vs) where
  open d use {Info, Condition, Name}

  abbrev pub Raw : Str → Str → List (AnyAllConditions Condition) → Type 0
  Raw = AttestationHit d laws (ImageOk d vs) (AttestationOk d vs) vs rv.trust_policy

  abbrev pub Stored : Str → Entry Info → Type 0
  Stored = Justified d laws (ImageOk d vs) (AttestationOk d vs) vs

  -- The names that an entry was added under, but for its trust policy.
  abbrev pub stored_names : (key : Str) (e : Entry Info) → Stored key e → Str
  stored_names key (image i) j = j.1
  stored_names key attestation_verified j = j.1 ++ j.2

  -- The entry was added when this attestation of this image was verified under this trust policy,
  -- for conditions with the same JSON.
  pub record Exact (ref t : Str) (cs : List (AnyAllConditions Condition)) : Type 0 where
    pub conditions : List (AnyAllConditions Condition)
    pub same_json : d.marshal_conditions cs ≡ d.marshal_conditions conditions
    pub verified : AttestationOk d vs rv.trust_policy ref t conditions

  -- The key does not tell, since a name that was asked for or stored holds the separator.
  pub record Ambiguous (ref t : Str) (cs : List (AnyAllConditions Condition)) : Type 0 where
    pub key : Str
    pub made : create_attestation_key d rv.trust_policy ref t cs ≡ ok key
    pub entry : Entry Info
    pub stored : Stored key entry
    pub semicolon : contains_char (ref ++ (t ++ stored_names key entry stored)) b';' ≡ true

  abbrev pub Hit : Str → Str → List (AnyAllConditions Condition) → Type 0
  Hit ref t cs = Exact ref t cs ⊎ Ambiguous ref t cs

  behind : (a b s : Str) → contains_char s b';' ≡ true → contains_char (a ++ (b ++ s)) b';' ≡ true
  behind a b s h =
      ground (arith, contains_char-append a (b ++ s) b';', contains_char-append b s b';')

  pub create_attestation_key-Hit :
      (ref t : Str) (cs : List (AnyAllConditions Condition)) → Raw ref t cs → Hit ref t cs
  create_attestation_key-Hit r t cs (key, made, image i, (q, s, e, ev)) = inr (record {
    key = key;
    made = made;
    entry = image i;
    stored = (q, s, e, ev);
    semicolon = behind r t s (
        image_key-semicolon d rv.trust_policy q r s t cs key
          (names rv.trust_policy rv.notation_verifier under.current)
          (names q ev.0.notation_verifier ev.1.current) made e);
  })
  create_attestation_key-Hit r t cs (key, made, attestation_verified, (q, s, u, ds, e, ev)) =
      elim (Bool-cases (contains_char (r ++ (t ++ (s ++ u))) b';')) [
        | inl mixed ↦ inr (record {
          key = key;
          made = made;
          entry = attestation_verified;
          stored = (q, s, u, ds, e, ev);
          semicolon = mixed;
        })
        | inr plain ↦
            let (hr, ht, hs, hu) = Lacks-append b';' r t s u plain in
            let (same_p, same_r, same_t, same_json) =
              create_attestation_key_inj d rv.trust_policy q r s t u cs ds key
                (names rv.trust_policy rv.notation_verifier under.current)
                (names q ev.0.notation_verifier ev.1.current) hr hs ht hu made e in
            inl (record {
              conditions = ds;
              same_json = same_json;
              verified = rw (same_p, same_r, same_t) ev;
            })
      ]
