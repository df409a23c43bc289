-- ===== src/Controller/Policies/Wanted.antt =====
-- The files that the listed objects ask for: names and origins.
use notation_aws_verifier.Prelude.{
  Str, codes, ℕ, ◌==◌, ==_iff, ==_refl, ◌++◌, Bool-cases, true, false, ◌||◌, some, List, [], ◌∷◌,
  ◌≡◌, ◌≢◌, ◌⊎◌, inl, inr, refl, sym, arith, In,
}
use notation_aws_verifier.Prelude.Map.{Map, lookup, insert, lookup-insert}
use notation_aws_verifier.Prelude.Result.{Result, ok, err}
use notation_aws_verifier.Prelude.Text.Scan.{
  contains_char, contains_any, after_last, contains_char-append, after_last-append,
}
use notation_aws_verifier.Cache.Keys.{Lacks}
use notation_aws_verifier.Disk.{Os}
use notation_aws_verifier.Disk.Names.{IsName, child_path, join-child_path}
use notation_aws_verifier.Disk.Paths.{join}
use notation_aws_verifier.Factory.Refresh.{ext}
use notation_aws_verifier.Controller.Cluster.{TrustPolicy, Cluster}
use notation_aws_verifier.Controller.Files.{separators, validate_file_name}
use notation_aws_verifier.Controller.Policies.{desired_policies}
use notation_aws_verifier.Controller.Policies.Writes.{IsPolicyFile, plain_after_last}

contains_any-Lacks :
    (s cs : Str) (c : ℕ) → contains_char cs c ≡ true → contains_any s cs ≡ false → Lacks c s
unfolding contains_any contains_char
contains_any-Lacks [] cs c h k = refl
contains_any-Lacks (x ∷ s) cs c h k = ground (arith, contains_any-Lacks s cs c h)

pub validate_file_name-IsName : (os : Os) (s : Str) → validate_file_name os s ≡ ok tt → IsName s
unfolding validate_file_name
validate_file_name-IsName os s h =
    elim (Bool-cases (s == [] || s == codes "." || s == codes ".." || contains_any s separators)) [
      | inl bad ↦ absurd (ground arith)
      | inr good ↦ record {
        filled = λ e. absurd (ground (arith, ==_iff s []));
        no_dot = λ e. absurd (ground (arith, ==_iff s (codes ".")));
        no_dots = λ e. absurd (ground (arith, ==_iff s (codes "..")));
        no_slash =
            contains_any-Lacks s separators b'/' (unfold contains_char codes in refl)
              (ground arith);
      }
    ]

json_not_nil : (s : Str) → (s ++ codes ".json") ≢ []
unfolding codes
json_not_nil [] e = ground arith
json_not_nil (x ∷ s) e = ground arith

json_not : (s : Str) → s ≢ [] → (x : ℕ) → (s ++ codes ".json") ≢ (x ∷ [])
unfolding codes
json_not [] h x = absurd (h refl)
json_not (y ∷ []) h x = λ e. absurd (ground arith)
json_not (y ∷ z ∷ s) h x = λ e. absurd (ground arith)

json_not_dots : (s : Str) → s ≢ [] → (s ++ codes ".json") ≢ codes ".."
unfolding codes
json_not_dots [] h = absurd (h refl)
json_not_dots (y ∷ []) h = λ e. absurd (ground arith)
json_not_dots (y ∷ z ∷ s) h = λ e. absurd (json_not_nil s (ground arith))

json_no_slash : (s : Str) → Lacks b'/' s → Lacks b'/' (s ++ codes ".json")
json_no_slash s h =
    unfold contains_char codes in ground (arith, contains_char-append s (codes ".json") b'/')

ext-append_json : (s : Str) → Lacks b'/' s → ext (s ++ codes ".json") ≡ codes ".json"
unfolding ext
ext-append_json s h = rw (plain_after_last (s ++ codes ".json") b'/' (json_no_slash s h)) (
    rw (contains_char-append s (codes ".json") b'.') (
      rw (after_last-append s (codes ".json") b'.' (unfold contains_char codes in refl))
        (unfold after_last contains_char codes in ground arith)))

pub append_json-IsPolicyFile : (s : Str) → IsName s → IsPolicyFile (s ++ codes ".json")
unfolding codes
append_json-IsPolicyFile s n = record {
  is_name = record {
    filled = json_not_nil s;
    no_dot = json_not s n.filled b'.';
    no_dots = json_not_dots s n.filled;
    no_slash = json_no_slash s n.no_slash;
  };
  json = ext-append_json s n.no_slash;
}

module _ (os : Os) (c : Cluster os.Object) where
  open c use {Meta}

  -- An object that is not being deleted and has a good name.
  pub record IsLive (p : TrustPolicy Meta) : Type 0 where
    pub kept : c.is_deleted p.meta ≡ false
    pub good_name : validate_file_name os p.spec.trust_policy_name ≡ ok tt

  -- A live object asks for this file with this text.
  pub record Asks (k v : Str) (p : TrustPolicy Meta) : Type 0 where
    pub live : IsLive p
    pub named : k ≡ p.spec.trust_policy_name ++ codes ".json"
    pub marshalled : c.marshal p.spec ≡ ok v

  -- An object is left out, or its text is taken.
  abbrev Taken : TrustPolicy Meta → List (TrustPolicy Meta) → Map Str → Map Str → Type 0
  Taken p ps old desired =
      ((¬ IsLive p) × (desired_policies os c ps old ≡ ok desired))
      ⊎ (IsLive p
          × (text : Str) × (c.marshal p.spec ≡ ok text)
          × (desired_policies os c ps (insert (p.spec.trust_policy_name ++ codes ".json") text old)
              ≡ ok desired))

  taken :
      (p : TrustPolicy Meta) (ps : List (TrustPolicy Meta)) (old desired : Map Str)
      → desired_policies os c (p ∷ ps) old ≡ ok desired
      → Taken p ps old desired
  unfolding desired_policies
  taken p ps old desired h = elim (Bool-cases (c.is_deleted p.meta)) [
    | inl gone ↦ inl (λ l. absurd (ground (arith, l.kept)), ground arith)
    | inr kept ↦
        by_name (validate_file_name os p.spec.trust_policy_name) (c.marshal p.spec) refl refl kept h
  ]
    where
      by_name :
          (r : Result (Unit {0})) (m : Result Str)
          → validate_file_name os p.spec.trust_policy_name ≡ r
          → c.marshal p.spec ≡ m
          → c.is_deleted p.meta ≡ false
          → desired_policies os c (p ∷ ps) old ≡ ok desired
          → Taken p ps old desired
      by_name (err e) m r q kept h = inl (λ l. absurd (ground (arith, l.good_name)), ground arith)
      by_name (ok u) (err e) r q kept h = absurd (ground arith)
      by_name (ok u) (ok text) r q kept h =
          inr (record { kept = kept; good_name = r }, text, q, ground arith)

  -- Every file that is asked for is the text of an object, or was asked for before.
  asked_for :
      (ps : List (TrustPolicy Meta)) (old desired : Map Str) (k v : Str)
      → desired_policies os c ps old ≡ ok desired
      → lookup k desired ≡ some v
      → ((p : TrustPolicy Meta) × In p ps × Asks k v p) ⊎ (lookup k old ≡ some v)
  unfolding desired_policies
  asked_for [] old desired k v h e = inr (ground arith)
  asked_for (p ∷ ps) old desired k v h e = elim (taken p ps old desired h) [
    | inl (skipped, g) ↦ later (asked_for ps old desired k v g e)
    | inr (live, text, m, g) ↦ elim (asked_for ps _ desired k v g e) [
      | inl (q, i, a) ↦ inl (q, inr i, a)
      | inr old_or_new ↦ elim (Bool-cases ((p.spec.trust_policy_name ++ codes ".json") == k)) [
        | inl same ↦
            let here : p.spec.trust_policy_name ++ codes ".json" ≡ k = (==_iff _ k).0 same in
            let text_is : text ≡ v =
              ground
                (arith, lookup-insert (p.spec.trust_policy_name ++ codes ".json") k text old) in
            inl
              (p, inl refl, record { live = live; named = sym here; marshalled = rw (← text_is) m })
        | inr other ↦
            inr
              (ground (arith, lookup-insert (p.spec.trust_policy_name ++ codes ".json") k text old))
      ]
    ]
  ]
    where
      later :
          ((q : TrustPolicy Meta) × In q ps × Asks k v q) ⊎ (lookup k old ≡ some v)
          → ((q : TrustPolicy Meta) × In q (p ∷ ps) × Asks k v q) ⊎ (lookup k old ≡ some v)
      later (inl (q, i, a)) = inl (q, inr i, a)
      later (inr e) = inr e

  -- What is asked for stays so.
  abbrev Has : Str → Map Str → Type 0
  Has k m = (v : Str) × (lookup k m ≡ some v)

  Has-insert : (k j text : Str) (m : Map Str) → Has k m → Has k (insert j text m)
  Has-insert k j text m (v, e) = elim (Bool-cases (j == k)) [
    | inl same ↦ (text, ground (arith, lookup-insert j k text m))
    | inr other ↦ (v, ground (arith, lookup-insert j k text m))
  ]

  stays :
      (ps : List (TrustPolicy Meta)) (old desired : Map Str) (k : Str)
      → desired_policies os c ps old ≡ ok desired
      → Has k old
      → Has k desired
  unfolding desired_policies
  stays [] old desired k h a = let e : old ≡ desired = ground arith in rw (← e) a
  stays (p ∷ ps) old desired k h a = elim (taken p ps old desired h) [
    | inl (skipped, g) ↦ stays ps old desired k g a
    | inr (live, text, m, g) ↦ stays ps _ desired k g (Has-insert k _ text old a)
  ]

  -- Every live object has its file.
  live_file :
      (ps : List (TrustPolicy Meta)) (old desired : Map Str) (p : TrustPolicy Meta)
      → desired_policies os c ps old ≡ ok desired
      → In p ps
      → IsLive p
      → Has (p.spec.trust_policy_name ++ codes ".json") desired
  live_file [] old desired p h i l = elim i [ ]
  live_file (q ∷ ps) old desired p h (inr i) l = elim (taken q ps old desired h) [
    | inl (skipped, g) ↦ live_file ps old desired p g i l
    | inr (live, text, m, g) ↦ live_file ps _ desired p g i l
  ]
  live_file (q ∷ ps) old desired p h (inl same) l = elim (taken q ps old desired h) [
    | inl (skipped, g) ↦ absurd (skipped (rw (← same) l))
    | inr (live, text, m, g) ↦ stays ps _ desired _ g (
        rw same (
          text,
          ground (
            arith,
            lookup-insert (q.spec.trust_policy_name ++ codes ".json")
                (q.spec.trust_policy_name ++ codes ".json") text old,
            ==_refl (q.spec.trust_policy_name ++ codes ".json"),
          ),
        ))
  ]

  -- The names that a list of objects asks for are names of policy files.
  pub desired_policies-IsPolicyFile :
      (ps : List (TrustPolicy Meta)) (desired : Map Str)
      → desired_policies os c ps [] ≡ ok desired
      → (k v : Str) → lookup k desired ≡ some v
      → IsPolicyFile k
  unfolding lookup
  desired_policies-IsPolicyFile ps desired h k v e = elim (asked_for ps [] desired k v h e) [
    | inl (p, i, a) ↦ rw a.named (
        append_json-IsPolicyFile p.spec.trust_policy_name
          (validate_file_name-IsName os p.spec.trust_policy_name a.live.good_name))
    | inr none_before ↦ absurd (ground arith)
  ]

  -- If the list of objects is turned into the map of the files, then each file of the map is named
  -- for an object of the list that is not being deleted and has a valid name, and holds that
  -- object's marshalled specification; and each such object has a file in the map.
  pub desired_policies-Asks :
      (ps : List (TrustPolicy Meta)) (desired : Map Str)
      → desired_policies os c ps [] ≡ ok desired
      → ((k v : Str) → lookup k desired ≡ some v → (p : TrustPolicy Meta) × In p ps × Asks k v p)
        × ((p : TrustPolicy Meta)
            → In p ps
            → IsLive p
            → (v : Str) × (lookup (p.spec.trust_policy_name ++ codes ".json") desired ≡ some v))
  unfolding lookup
  desired_policies-Asks ps desired h = (
    λ k v e. elim (asked_for ps [] desired k v h e) [
      | inl found ↦ found
      | inr none_before ↦ absurd (ground arith)
    ],
    λ p i l. live_file ps [] desired p h i l,
  )

-- A name that `validateFileName` accepts joins to a child of the directory: no accepted name leads
-- out of it, nor into a directory below it.
pub validate_file_name-join :
    (os : Os) (dir name : Str)
    → validate_file_name os name ≡ ok tt
    → (join dir name ≡ child_path dir name) × Lacks b'/' name
validate_file_name-join os dir name h =
    let n = validate_file_name-IsName os name h in (join-child_path dir name n, n.no_slash)
