-- ===== src/Cache/Keys.antt =====
-- Keys of the cache tell trust policies and images apart where no trust policy holds a `;`.
use notation_aws_verifier.Prelude.{
  Str, codes, ℕ, ◌++◌, true, false, eqb_iff, List, [], ◌∷◌, ◌≡◌, refl, ap, arith,
}
use notation_aws_verifier.Prelude.Result.{Result, ok, err, map_ok}
use notation_aws_verifier.Deps.{Deps}
use notation_aws_verifier.Types.{AnyAllConditions}
use notation_aws_verifier.Prelude.Text.Scan.{contains_char, contains_char-append}
use notation_aws_verifier.Cache.{create_image_key, create_attestation_key}

-- `c` stands nowhere in `s`.
abbrev pub Lacks : ℕ → Str → Type 0
Lacks c s = contains_char s c ≡ false

-- The text of an attestation key, once the conditions are marshalled.
abbrev pub attestation_text : Str → Str → Str → Str → Str
attestation_text p r t c = p ++ b';' ∷ (r ++ b';' ∷ (t ++ b';' ∷ c))

pub split_unique :
    (c : ℕ) (s t u v : Str) → Lacks c s → Lacks c t → s ++ c ∷ u ≡ t ++ c ∷ v → (s ≡ t) × (u ≡ v)
unfolding contains_char
split_unique c [] [] u v hs ht e = (refl, ground arith)
split_unique c [] (y ∷ t) u v hs ht e = absurd (ground arith)
split_unique c (x ∷ s) [] u v hs ht e = absurd (ground arith)
split_unique c (x ∷ s) (y ∷ t) u v hs ht e = ground (arith, split_unique c s t u v)

-- Two image keys are equal only for the same trust policy and the same image, if neither trust
-- policy holds a semicolon.
pub create_image_key_inj :
    (p q r s : Str)
    → Lacks b';' p
    → Lacks b';' q
    → create_image_key p r ≡ create_image_key q s
    → (p ≡ q) × (r ≡ s)
unfolding create_image_key codes
create_image_key_inj p q r s hp hq e = split_unique b';' p q r s hp hq e

-- Two attestation keys are equal only for the same trust policy, image and type, and conditions
-- with the same JSON, if no trust policy, image or type holds a semicolon.
pub create_attestation_key_inj :
    (d : Deps) (p q r s t u : Str) (cs ds : List (AnyAllConditions d.Condition)) (key : Str)
    → Lacks b';' p
    → Lacks b';' q
    → Lacks b';' r
    → Lacks b';' s
    → Lacks b';' t
    → Lacks b';' u
    → create_attestation_key d p r t cs ≡ ok key
    → create_attestation_key d q s u ds ≡ ok key
    → (p ≡ q) × (r ≡ s) × (t ≡ u) × (d.marshal_conditions cs ≡ d.marshal_conditions ds)
unfolding create_attestation_key codes
create_attestation_key_inj d p q r s t u cs ds key hp hq hr hs ht hu e f =
    by_json (d.marshal_conditions cs) (d.marshal_conditions ds) e f
  where
    by_json :
        (a b : Result Str)
        → map_ok (λ c. attestation_text p r t c) a ≡ ok key
        → map_ok (λ c. attestation_text q s u c) b ≡ ok key
        → (p ≡ q) × (r ≡ s) × (t ≡ u) × (a ≡ b)
    by_json (ok a) (ok b) e f =
        let same : attestation_text p r t a ≡ attestation_text q s u b = ground arith in
        let (same_p, rest) = split_unique b';' p q _ _ hp hq same in
        let (same_r, rest') = split_unique b';' r s _ _ hr hs rest in
        let (same_t, same_c) = split_unique b';' t u a b ht hu rest' in
        (same_p, same_r, same_t, ap ok same_c)
    by_json (err a) b e f = absurd (ground arith)
    by_json (ok a) (err b) e f = absurd (ground arith)

-- Four names without a semicolon.
pub Lacks-append :
    (c : ℕ) (r s t u : Str)
    → Lacks c (r ++ (s ++ (t ++ u)))
    → Lacks c r × Lacks c s × Lacks c t × Lacks c u
Lacks-append c r s t u h =
    let first : Lacks c r × Lacks c (s ++ (t ++ u)) =
      ground (arith, contains_char-append r (s ++ (t ++ u)) c) in
    let second : Lacks c s × Lacks c (t ++ u) = ground (arith, contains_char-append s (t ++ u) c) in
    let third : Lacks c t × Lacks c u = ground (arith, contains_char-append t u c) in
    (first.0, second.0, third.0, third.1)

pub contains_char-behind : (c : ℕ) (s t : Str) → contains_char (s ++ c ∷ t) c ≡ true
unfolding contains_char
contains_char-behind c [] t = ground (arith, eqb_iff c c)
contains_char-behind c (x ∷ s) t = ground (arith, contains_char-behind c s t)

-- An attestation key is the key of an image only if that image's name holds a semicolon.
pub image_key-semicolon :
    (d : Deps) (p q r s t : Str) (cs : List (AnyAllConditions d.Condition)) (key : Str)
    → Lacks b';' p
    → Lacks b';' q
    → create_attestation_key d p r t cs ≡ ok key
    → key ≡ create_image_key q s
    → contains_char s b';' ≡ true
unfolding create_attestation_key create_image_key codes
image_key-semicolon d p q r s t cs key hp hq e f = by_json (d.marshal_conditions cs) e
  where
    by_json :
        (a : Result Str)
        → map_ok (λ c. attestation_text p r t c) a ≡ ok key
        → contains_char s b';' ≡ true
    by_json (ok a) e =
        let same : attestation_text p r t a ≡ q ++ b';' ∷ s = ground arith in
        let (_, rest) = split_unique b';' p q _ _ hp hq same in
        rw (← rest) (contains_char-behind b';' r (t ++ b';' ∷ a))
    by_json (err a) e = absurd (ground arith)
