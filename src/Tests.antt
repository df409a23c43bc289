-- ===== src/Tests.antt =====
-- A small world in which everything can be run: one registry, one trust policy, one image that
-- notation accepts, and the cache as a plain map. The children apply the theorems to it.
mod Verification
mod Parts
mod Settings
mod Credentials
mod Steps
mod Files
mod Reconcile
mod Stores
mod Service
mod Tls
use notation_aws_verifier.Prelude.{
  ◌||◌, Str, codes, ℕ, ◌+◌, ◌≤◌, ◌==◌, ==_iff, Bool, true, false, Option, none, some, List, [], ◌∷◌,
  ◌≡◌, ◌⊎◌, inl, inr, refl, sym, arith, Bool-cases, length, if◌then◌else◌,
}
use notation_aws_verifier.Prelude.Int.{ℤ, pos}
use notation_aws_verifier.Prelude.Map.{Map, lookup, insert, lookup-insert}
use notation_aws_verifier.Prelude.Result.{Result, ok, err}
use notation_aws_verifier.Cache.{Cache}
use notation_aws_verifier.Config.{VerifierConfig}
use notation_aws_verifier.Deps.{
  Kyverno, Registries, Ristretto, Deps, Entry, Descriptor, RistrettoLaws, RangeLaws, KyvernoLaws,
}
use notation_aws_verifier.Types.{Image, ImageInfo}
use notation_aws_verifier.World.{World}

pub record ToyInfo : Type 0 where
  pub text : Str
  pub digest : Str

abbrev pub toy_kyverno : Kyverno
toy_kyverno = record {
  Info = ToyInfo;
  Condition = Bool;
  Context = Str;
  Payload = Str;
  info_string = λ i. i.text;
  info_name = λ i. i.text;
  info_digest = λ i. i.digest;
  with_digest = λ i s. record i { digest = s };
  wildcard_match = λ p s. (p == b'*' ∷ []) || (p == s);
  has_raw_key = λ c. c;
  has_raw_value = λ c. c;
  format_attestation = λ a. a.image_reference;
  marshal_conditions = λ cs. ok (b'{' ∷ []);
  new_context = [];
  add_json_object = λ c p. ok p;
  decode_payload = λ s. ok s;
  evaluate_any_all_conditions = λ n c cs. ok (true, []);
}

abbrev pub toy_digest : Str
toy_digest = codes "sha256:aa"

abbrev pub signature_type : Str
signature_type = codes "sbom"

-- A reference is its text; its registry is not looked at.
abbrev pub toy_registries : Registries
toy_registries = record {
  Keychain = Unit {0};
  Authenticator = Unit {0};
  Secret = Str;
  Puller = Unit {0};
  Reference = Str;
  Repository = Str;
  Name = Str;
  Index = Unit {0};
  Layer = Str;
  Manifest = Str;
  default_keychain = tt;
  new_multi_keychain = λ ks. tt;
  new_from_pull_secrets = λ n ss. ok tt;
  get_secret = λ n s. ok s;
  get_config_map = λ n s. ok [];
  resolve = λ n k r. ok tt;
  authorization = λ n a. ok none;
  new_puller = λ n k. ok tt;
  parse_registry_reference = λ s. ok s;
  reference_string = λ r. r;
  registry_of = λ r. codes "reg";
  with_reference = λ r s. r;
  new_repository = λ s. ok s;
  set_client = λ r c. r;
  parse_name = λ s. ok s;
  name_string = λ s. s;
  identifier = λ s. toy_digest;
  is_digest = λ s. true;
  registry_str = λ s. codes "reg";
  repository_str = λ s. codes "app";
  at_digest = λ s x. s;
  head = λ n k p s. ok (record { artifact_type = []; digest = toy_digest });
  get = λ n k p s. ok (toy_digest, []);
  referrers = λ n k p s. ok tt;
  index_manifest = λ n i. ok (record { artifact_type = signature_type; digest = toy_digest } ∷ []);
  unmarshal_manifest = λ s. ok s;
  layers = λ m. m ∷ [];
  manifest_text = λ m. m;
  layer = λ n k p s. ok s;
  uncompressed = λ n l. ok l;
}

abbrev pub toy_store : Ristretto ToyInfo
toy_store = record {
  Store = Map (Entry ToyInfo);
  new_store = λ counters cost. ok [];
  get_entry = λ n s k. lookup k s;
  set_with_ttl = λ n s k e cost ttl. (insert k e s, true);
  clear = λ s. [];
}

abbrev pub toy : Deps
toy = record {
  kyverno = toy_kyverno;
  registries = toy_registries;
  ristretto = toy_store;
  Verifier = Str;
  notation_verify = λ n v r o. ok (toy_digest, none ∷ []);
  range_order = λ n ks. ks;
  create_token_review = λ n spec. ok (record { authenticated = true; username = spec.token });
  default_trust_policy = codes "tp";
  marshal_response = λ r. ok (codes "{}");
  notation_path = codes "/tmp/notation";
  read_dir = λ n p. ok (record { name = codes "tp.json"; is_dir = false } ∷ []);
  lstat = λ n p. ok (record { is_dir = false; is_symlink = false });
  is_not_exist = λ e. false;
  is_permission = λ e. false;
  open_file = λ n p. ok p;
  Document = Str;
  decode_document = λ s. ok s;
  new_verifier = λ n doc. ok doc;
}

pub toy_held_set :
    (s : Map (Entry ToyInfo)) (k : Str) (e : Entry ToyInfo) (j : Str) (f : Entry ToyInfo)
    → lookup j (insert k e s) ≡ some f
    → (lookup j s ≡ some f) ⊎ ((j ≡ k) × (f ≡ e))
toy_held_set s k e j f h = ground (arith, lookup-insert k j e s, ==_iff k j)

pub toy_cleared : (k : Str) (e : Entry ToyInfo) → ¬ (lookup k [] ≡ some e)
unfolding lookup
toy_cleared k e h = ground arith

pub toy_new :
    (counters cost : ℤ) (s : Map (Entry ToyInfo)) (k : Str) (e : Entry ToyInfo)
    → toy_store.new_store counters cost ≡ ok s
    → ¬ (lookup k s ≡ some e)
toy_new counters cost s k e h g = let p : s ≡ [] = ground arith in toy_cleared k e (rw p at g)

abbrev pub toy_laws : RistrettoLaws toy_store
toy_laws = record {
  Held = λ s k e. lookup k s ≡ some e;
  held_get = λ n s k e h. h;
  held_set = λ n s k e cost ttl j f h. toy_held_set s k e j f h;
  not_held_new = λ counters cost s k e h. toy_new counters cost s k e h;
  not_held_clear = λ s k e. toy_cleared k e;
}

abbrev pub toy_range : RangeLaws toy
toy_range = record { count_order = λ n ks k. refl }

abbrev pub toy_assignment : KyvernoLaws toy_kyverno
toy_assignment = record { digest_with_digest = λ i s. refl }

abbrev pub toy_config : VerifierConfig (Unit {0})
toy_config = record {
  provider_keychain = none;
  image_pull_secrets = [];
  insecure_registry = false;
  plugin_config_map = [];
  max_signature_attempts = pos 10;
  max_cache_size = pos 10;
  use_cache = true;
  review_token = true;
  token_review_audiences = [];
  max_cache_ttl = pos 3600;
  debug = false;
  cache = record { use_cache = true; ttl = pos 3600; max_size = pos 10 };
  allowed_users = codes "kyverno" ∷ [];
}

abbrev pub toy_verifiers : Map Str
toy_verifiers = (codes "tp", codes "tp.json") ∷ []

abbrev pub toy_world : World toy
toy_world = record { calls = 0; store = []; verifiers = toy_verifiers }

abbrev pub toy_image : ImageInfo ToyInfo
toy_image = record {
  image = record { info = record { text = codes "reg/app@sha256:aa"; digest = [] } };
  pointer = codes "/spec/containers/0/image";
}
