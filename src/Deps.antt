-- ===== src/Deps.antt =====
-- What the program calls and does not implement: Kyverno's image and condition types, the
-- registry clients, the keychains, notation, the Kubernetes API and the ristretto cache. A call
-- that leaves the process takes the number of the call as its first argument, so that its answer
-- may change from call to call.
use notation_aws_verifier.Prelude.{Str, Bool, ℕ, List, Option, ◌≡◌, ◌⊎◌, some}
use notation_aws_verifier.Prelude.Map.{Map, count}
use notation_aws_verifier.Prelude.Int.{ℤ}
use notation_aws_verifier.Prelude.Exec.{Result, ok}
use notation_aws_verifier.Types.{Image, AnyAllConditions, AttestationsInfo, ResponseData}

-- A value of the verification cache: an image, or the mark of a verified attestation.
pub data Entry (Info : Type 0) : Type 0 where
  image : Image Info → Entry Info
  attestation_verified : Entry Info

-- `authn.AuthConfig`, with the fields that the program reads.
pub record AuthConfig : Type 0 where
  pub username : Str
  pub password : Str
  pub identity_token : Str
  pub registry_token : Str

-- The credential that `auth.Client` sends to one registry.
pub record Credential : Type 0 where
  pub username : Str
  pub password : Str
  pub refresh_token : Str
  pub access_token : Str

pub record AuthClient : Type 0 where
  pub registry : Str
  pub credential : Credential
  pub client_id : Str
  pub user_agent : Str

-- A descriptor of `v1.Descriptor`, with the fields that the program reads.
pub record Descriptor : Type 0 where
  pub artifact_type : Str
  pub digest : Str

pub record VerifyOptions : Type 0 where
  pub artifact_reference : Str
  pub max_signature_attempts : ℤ
  pub plugin_config : Map Str

pub record TokenReviewSpec : Type 0 where
  pub token : Str
  pub audiences : List Str

pub record TokenReviewStatus : Type 0 where
  pub authenticated : Bool
  pub username : Str

-- What `os.ReadDir` and `os.Lstat` tell of a file.
pub record DirEntry : Type 0 where
  pub name : Str
  pub is_dir : Bool

pub record FileMode : Type 0 where
  pub is_dir : Bool
  pub is_symlink : Bool

-- Kyverno: images, wildcards, conditions.
pub record Kyverno : Type 1 where
  pub Info : Type 0
  pub Condition : Type 0
  pub Context : Type 0
  pub Payload : Type 0
  pub info_string : Info → Str
  pub info_name : Info → Str
  pub info_digest : Info → Str
  -- the struct with its field `Digest` assigned
  pub with_digest : Info → Str → Info
  pub wildcard_match : Str → Str → Bool
  pub has_raw_key : Condition → Bool
  pub has_raw_value : Condition → Bool
  -- an attestation as `%+v` prints it
  pub format_attestation : AttestationsInfo Condition → Str
  pub marshal_conditions : List (AnyAllConditions Condition) → Result Str
  pub new_context : Context
  pub add_json_object : Context → Payload → Result Context
  pub decode_payload : Str → Result Payload
  pub evaluate_any_all_conditions :
      ℕ → Context → List (AnyAllConditions Condition) → Result (Bool × Str)

-- The registries and the credentials.
pub record Registries : Type 1 where
  pub Keychain : Type 0
  pub Authenticator : Type 0
  pub Secret : Type 0
  pub Puller : Type 0
  -- oras `registry.Reference` and `remote.Repository`
  pub Reference : Type 0
  pub Repository : Type 0
  -- go-containerregistry `name.Reference`, indexes, layers and manifests
  pub Name : Type 0
  pub Index : Type 0
  pub Layer : Type 0
  pub Manifest : Type 0
  pub default_keychain : Keychain
  pub new_multi_keychain : List Keychain → Keychain
  pub new_from_pull_secrets : ℕ → List Secret → Result Keychain
  pub get_secret : ℕ → Str → Result Secret
  pub get_config_map : ℕ → Str → Result (Map Str)
  pub resolve : ℕ → Keychain → Reference → Result Authenticator
  pub authorization : ℕ → Authenticator → Result (Option AuthConfig)
  pub new_puller : ℕ → Keychain → Result Puller
  pub parse_registry_reference : Str → Result Reference
  pub reference_string : Reference → Str
  pub registry_of : Reference → Str
  -- the struct with its field `Reference` assigned
  pub with_reference : Reference → Str → Reference
  pub new_repository : Str → Result Repository
  pub set_client : Repository → AuthClient → Repository
  pub parse_name : Str → Result Name
  pub name_string : Name → Str
  pub identifier : Name → Str
  pub is_digest : Name → Bool
  pub registry_str : Name → Str
  pub repository_str : Name → Str
  -- `ref.Context().Digest(d)`
  pub at_digest : Name → Str → Name
  pub head : ℕ → Keychain → Puller → Name → Result Descriptor
  -- the digest and the manifest of what `remote.Get` fetched
  pub get : ℕ → Keychain → Puller → Name → Result (Str × Str)
  pub referrers : ℕ → Keychain → Puller → Name → Result Index
  pub index_manifest : ℕ → Index → Result (List Descriptor)
  pub unmarshal_manifest : Str → Result Manifest
  -- the digests of the layers, and the manifest as `%+v` prints it
  pub layers : Manifest → List Str
  pub manifest_text : Manifest → Str
  pub layer : ℕ → Keychain → Puller → Name → Result Layer
  pub uncompressed : ℕ → Layer → Result Str

-- The ristretto cache. Its answers depend on its state and on the call: it drops entries when
-- their time is over or it is full.
pub record Ristretto (Info : Type 0) : Type 1 where
  pub Store : Type 0
  -- `NewCache` with the number of counters and the maximal cost
  pub new_store : ℤ → ℤ → Result Store
  pub get_entry : ℕ → Store → Str → Option (Entry Info)
  pub set_with_ttl : ℕ → Store → Str → Entry Info → ℕ → ℕ → Store × Bool
  pub clear : Store → Store

-- Everything together, with the order in which a `range` visits the keys of a map.
pub record Deps : Type 1 where
  pub kyverno : Kyverno
  pub open kyverno use *
  pub registries : Registries
  pub open registries use *
  pub ristretto : Ristretto Info
  pub open ristretto use *
  pub Verifier : Type 0
  -- `notation.Verify`: the digest of the verified artifact and the error of each outcome
  pub notation_verify : ℕ → Verifier → Repository → VerifyOptions → Result (Str × List (Option Str))
  -- a Go map's order of iteration, and the `n`-th call's
  pub range_order : ℕ → List Str → List Str
  pub create_token_review : ℕ → TokenReviewSpec → Result TokenReviewStatus
  -- `os.Getenv("DEFAULT_TRUST_POLICY")`
  pub default_trust_policy : Str
  -- `json.MarshalIndent` of the response
  pub marshal_response : ResponseData → Result Str
  -- the directory of the trust policy files, a clean path without a slash at its end
  pub notation_path : Str
  pub read_dir : ℕ → Str → Result (List DirEntry)
  pub lstat : ℕ → Str → Result FileMode
  -- `errors.Is` at `os.ErrNotExist` and `os.ErrPermission`
  pub is_not_exist : Str → Bool
  pub is_permission : Str → Bool
  pub open_file : ℕ → Str → Result Str
  pub Document : Type 0
  pub decode_document : Str → Result Document
  -- `verifier.New` with the X.509 trust store and the plugins of the directory
  pub new_verifier : ℕ → Document → Result Verifier

-- What ristretto documents: an entry that it returns was set under that key and not cleared since.
pub record RistrettoLaws {Info : Type 0} (r : Ristretto Info) : Type 1 where
  pub Held : r.Store → Str → Entry Info → Type 0
  pub held_get :
      (n : ℕ) (s : r.Store) (k : Str) (e : Entry Info) → r.get_entry n s k ≡ some e → Held s k e
  pub held_set :
      (n : ℕ) (s : r.Store) (k : Str) (e : Entry Info) (cost ttl : ℕ) (j : Str) (f : Entry Info)
      → Held (r.set_with_ttl n s k e cost ttl).0 j f
      → Held s j f ⊎ ((j ≡ k) × (f ≡ e))
  pub not_held_new :
      (counters cost : ℤ) (s : r.Store) (k : Str) (e : Entry Info)
      → r.new_store counters cost ≡ ok s
      → ¬ Held s k e
  pub not_held_clear : (s : r.Store) (k : Str) (e : Entry Info) → ¬ Held (r.clear s) k e

-- What Go documents: a `range` over a map visits each key exactly once.
pub record RangeLaws (d : Deps) : Type 0 where
  pub count_order : (n : ℕ) (ks : List Str) (k : Str) → count k (d.range_order n ks) ≡ count k ks

-- Go's assignment to a field: the digest that was written is read back.
pub record KyvernoLaws (k : Kyverno) : Type 0 where
  pub digest_with_digest : (i : k.Info) (s : Str) → k.info_digest (k.with_digest i s) ≡ s
