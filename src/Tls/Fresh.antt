-- ===== src/Tls/Fresh.antt =====
-- The certificates of the handshakes are those of the secrets.
use notation_aws_verifier.Prelude.{
  Str, codes, ◌==◌, ==_iff, Bool, true, false, not, none, some, List, [], ◌∷◌, map, ◌≡◌, refl, sym,
  inl, inr, In, if◌then◌else◌,
}
use notation_aws_verifier.Prelude.Result.{Result, ok, err}
use notation_aws_verifier.Tls.{
  TlsSecret, secret_type_tls, Current, keep_parsed, parse, parse_changed, get_certificate,
  handshakes,
}

module _ {Certificate : Type 0} (x509_key_pair : Str → Str → Result Certificate) where
  -- What is served without a memory.
  abbrev pub certificate_of : Result TlsSecret → Result Certificate
  certificate_of (err e) = err e
  certificate_of (ok secret) =
      if not (secret.type == secret_type_tls)
      then err (codes "secret is not a TLS secret")
      else x509_key_pair secret.cert_data secret.key_data

  -- The secrets of the answers with one version have the same data.
  abbrev pub Versioned : List (Result TlsSecret) → Type 0
  Versioned rs =
      (s t : TlsSecret)
      → In (ok s) rs
      → In (ok t) rs
      → s.resource_version ≡ t.resource_version
      → (s.cert_data ≡ t.cert_data) × (s.key_data ≡ t.key_data)

  -- A parsed certificate agrees with every secret of its version.
  abbrev Agrees : List (Result TlsSecret) → Current x509_key_pair → Type 0
  Agrees rs none = Unit
  Agrees rs (some c) =
      (s : TlsSecret)
      → In (ok s) rs
      → c.resource_version ≡ s.resource_version
      → x509_key_pair s.cert_data s.key_data ≡ ok c.cert

  module _ (all : List (Result TlsSecret)) (versions : Versioned all) where
    kept :
        (current : Current x509_key_pair) (s : TlsSecret) (r : Result Certificate)
        → In (ok s) all
        → x509_key_pair s.cert_data s.key_data ≡ r
        → Agrees all current
        → ((keep_parsed x509_key_pair current s r).0 ≡ r)
          × Agrees all (keep_parsed x509_key_pair current s r).1
    kept current s (err e) i p agrees = (refl, agrees)
    kept current s (ok cert) i p agrees =
        (refl, λ t j same. let (certs, keys) = versions s t i j same in rw (← certs, ← keys) p)

    parse-fresh :
        (current : Current x509_key_pair) (s : TlsSecret)
        → In (ok s) all
        → Agrees all current
        → ((parse x509_key_pair current s).0 ≡ x509_key_pair s.cert_data s.key_data)
          × Agrees all (parse x509_key_pair current s).1
    parse-fresh current s i agrees =
        kept current s (x509_key_pair s.cert_data s.key_data) i refl agrees

    parse_changed-fresh :
        (current : Current x509_key_pair) (s : TlsSecret)
        → In (ok s) all
        → Agrees all current
        → ((parse_changed x509_key_pair current s).0 ≡ x509_key_pair s.cert_data s.key_data)
          × Agrees all (parse_changed x509_key_pair current s).1
    parse_changed-fresh none s i agrees = parse-fresh none s i agrees
    parse_changed-fresh (some c) s i agrees =
        by_version (c.resource_version == s.resource_version) refl
      where
        by_version :
            (b : Bool)
            → (c.resource_version == s.resource_version) ≡ b
            → let r : Result Certificate × Current x509_key_pair =
                if b then (ok c.cert, some c) else parse x509_key_pair (some c) s in
              (r.0 ≡ x509_key_pair s.cert_data s.key_data) × Agrees all r.1
        by_version true e =
            (sym (agrees s i ((==_iff c.resource_version s.resource_version).0 e)), agrees)
        by_version false e = parse-fresh (some c) s i agrees

    get_certificate-fresh :
        (r : Result TlsSecret) (current : Current x509_key_pair)
        → In r all
        → Agrees all current
        → ((get_certificate x509_key_pair r current).0 ≡ certificate_of r)
          × Agrees all (get_certificate x509_key_pair r current).1
    unfolding get_certificate
    get_certificate-fresh (err e) current i agrees = (refl, agrees)
    get_certificate-fresh (ok s) current i agrees = by_type (not (s.type == secret_type_tls))
      where
        by_type :
            (b : Bool)
            → let r : Result Certificate × Current x509_key_pair =
                if b
                then (err (codes "secret is not a TLS secret"), current)
                else parse_changed x509_key_pair current s in
              (r.0 ≡ (
                if b
                then err (codes "secret is not a TLS secret")
                else x509_key_pair s.cert_data s.key_data))
              × Agrees all r.1
        by_type true = (refl, agrees)
        by_type false = parse_changed-fresh current s i agrees

    handshakes-rest :
        (rs : List (Result TlsSecret)) (current : Current x509_key_pair)
        → ((r : Result TlsSecret) → In r rs → In r all)
        → Agrees all current
        → handshakes x509_key_pair rs current ≡ map certificate_of rs
    unfolding handshakes
    handshakes-rest [] current within agrees = refl
    handshakes-rest (r ∷ rs) current within agrees =
        let (answer, next) = get_certificate-fresh r current (within r (inl refl)) agrees in
        rw
          (
            answer,
            handshakes-rest rs (get_certificate x509_key_pair r current).1 (λ s i. within s (inr i))
                next,
          )
          refl

  -- If the secrets that the lister gives have the same data whenever they have the same resource
  -- version, every handshake since the start is answered as if the secret of that moment was
  -- checked and parsed anew: a changed certificate is served at once, an error is never remembered.
  pub handshakes-certificate_of :
      (rs : List (Result TlsSecret))
      → Versioned rs
      → handshakes x509_key_pair rs none ≡ map certificate_of rs
  handshakes-certificate_of rs versions = handshakes-rest rs versions rs none (λ r i. i) tt
