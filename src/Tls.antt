-- ===== src/Tls.antt =====
-- main.go: `newTLSConfig`, whose callback serves the certificate of a secret and parses it only when
-- the secret has changed.
pub mod Fresh
use notation_aws_verifier.Prelude.{
  Str, codes, ◌==◌, not, Option, none, some, List, [], ◌∷◌, if◌then◌else◌,
}
use notation_aws_verifier.Prelude.Result.{Result, ok, err}

pub record TlsSecret : Type 0 where
  pub type : Str
  pub resource_version : Str
  -- the entries `tls.crt` and `tls.key` of the data
  pub cert_data : Str
  pub key_data : Str

pub record ParsedCert (Certificate : Type 0) : Type 0 where
  pub resource_version : Str
  pub cert : Certificate

-- `corev1.SecretTypeTLS`
abbrev pub secret_type_tls : Str
secret_type_tls = codes "kubernetes.io/tls"

-- `tls.X509KeyPair` is a parameter.
module _ {Certificate : Type 0} (x509_key_pair : Str → Str → Result Certificate) where
  abbrev pub Current : Type 0
  Current = Option (ParsedCert Certificate)

  abbrev pub keep_parsed : Current → TlsSecret → Result Certificate → Result Certificate × Current
  keep_parsed current secret (err e) = (err e, current)
  keep_parsed current secret (ok cert) =
      (ok cert, some (record { resource_version = secret.resource_version; cert = cert }))

  abbrev pub parse : Current → TlsSecret → Result Certificate × Current
  parse current secret = keep_parsed current secret (x509_key_pair secret.cert_data secret.key_data)

  abbrev pub parse_changed : Current → TlsSecret → Result Certificate × Current
  parse_changed none secret = parse none secret
  parse_changed (some c) secret =
      if c.resource_version == secret.resource_version
      then (ok c.cert, some c)
      else parse (some c) secret

  -- The callback, for what the lister gives.
  unfoldable pub get_certificate : Result TlsSecret → Current → Result Certificate × Current
  get_certificate (err e) current = (err e, current)
  get_certificate (ok secret) current =
      if not (secret.type == secret_type_tls)
      then (err (codes "secret is not a TLS secret"), current)
      else parse_changed current secret

  -- One handshake after another.
  unfoldable pub handshakes : List (Result TlsSecret) → Current → List (Result Certificate)
  unfolding get_certificate
  handshakes [] current = []
  handshakes (r ∷ rs) current =
      let (answer, next) = get_certificate r current in answer ∷ handshakes rs next
