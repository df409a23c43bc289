-- ===== src/Startup.antt =====
-- internal/verifier: `NewVerifier` of client.go and `newVerifier` of verify.go, which read the trust
-- policies and make the cache before the first request. The configuration and the client of the
-- Kubernetes API are parameters; the informers only matter by which listers are made.
pub mod Flags
pub mod Started
use notation_aws_verifier.Prelude.{
  ◌≡◌, Str, codes, ℕ, zero, suc, ◌++◌, Bool, true, false, not, Option, none, some, List, [], ◌∷◌,
  is_empty,
}
use notation_aws_verifier.Prelude.Exec.{Exec, pure, lift, wrap, attempt, ◌>>=◌}
use notation_aws_verifier.Prelude.Int.{pos}
use notation_aws_verifier.Prelude.Result.{Result, ok, err}
use notation_aws_verifier.Cache.New.{
  new_cache, with_cache_enabled, with_max_size, with_ttl_duration,
}
use notation_aws_verifier.Config.{VerifierConfig, VerifierOption}
use notation_aws_verifier.Deps.{Deps}
use notation_aws_verifier.Factory.Refresh.{refresh_verifiers}
use notation_aws_verifier.Keychain.{provider_credentials_ttl}
use notation_aws_verifier.World.{World, ask}

-- `ctrl.GetConfig`, `kubernetes.NewForConfig`, the keychain that caches another's credentials for
-- some time, and `backoff.Retry` with an exponential backoff.
pub record Platform (d : Deps) : Type 1 where
  pub KubeConfig : Type 0
  pub Client : Type 0
  pub get_config : ℕ → Result KubeConfig
  pub new_for_config : KubeConfig → Result Client
  pub new_caching_keychain : d.Keychain → ℕ → d.Keychain
  pub retry : {A : Type 0} → Exec (World d) A → Exec (World d) A

-- A retry that succeeds ends with an attempt that succeeds.
pub record PlatformLaws {d : Deps} (p : Platform d) : Type 1 where
  pub retried :
      {A : Type 0} (m : Exec (World d) A) (w w' : World d) (a : A)
      → p.retry m w ≡ (ok a, w')
      → (u : World d) × (m u ≡ (ok a, w'))

-- The verifier with what `newVerifier` has set up; a lister that was not made is `nil` in the
-- source.
pub record StartedVerifier (Keychain Client : Type 0) : Type 0 where
  pub config : VerifierConfig Keychain
  pub client : Client
  pub has_secret_lister : Bool
  pub has_config_map_lister : Bool

-- The zero value of the struct.
abbrev pub unset : {Keychain : Type 0} → VerifierConfig Keychain
unset = record {
  provider_keychain = none;
  image_pull_secrets = [];
  insecure_registry = false;
  plugin_config_map = [];
  max_signature_attempts = pos 0;
  max_cache_size = pos 0;
  use_cache = false;
  review_token = false;
  token_review_audiences = [];
  max_cache_ttl = pos 0;
  debug = false;
  cache = record { use_cache = false; ttl = pos 0; max_size = pos 0 };
  allowed_users = [];
}

unfoldable pub configure :
    {Keychain : Type 0}
    → List (VerifierOption Keychain)
    → VerifierConfig Keychain
    → VerifierConfig Keychain
configure [] v = v
configure (o ∷ os) v = configure os (o v)

module _ (d : Deps) (p : Platform d) where
  open d use {Keychain, Store}
  open p use {Client, get_config, new_for_config, new_caching_keychain, retry}

  -- `NewNotationVerifierFactory`.
  unfoldable pub new_factory : Exec (World d) (Unit {0})
  new_factory w = (ok tt, record w { verifiers = [] })

  abbrev pub set_store : Store → Exec (World d) (Unit {0})
  set_store store w = (ok tt, record w { store = store })

  abbrev pub with_cached_credentials : Option Keychain → Option Keychain
  with_cached_credentials none = none
  with_cached_credentials (some k) = some (new_caching_keychain k provider_credentials_ttl)

  unfoldable pub new_verifier :
      List (VerifierOption Keychain) → Exec (World d) (StartedVerifier Keychain Client)
  unfolding configure new_factory new_cache with_cache_enabled with_max_size with_ttl_duration
      refresh_verifiers
  new_verifier opts = do
    let v = configure opts unset
    config ← wrap (λ e. codes "failed to get Kubernetes config: " ++ e) (ask d get_config)
    client ←
        wrap (λ e. codes "failed to create Kubernetes client: " ++ e) (lift (new_for_config config))
    made ← new_factory
    refreshed ← wrap (λ e. codes "failed to create notation verifiers: " ++ e) (refresh_verifiers d)
    cached ←
        wrap (λ e. codes "failed to create cache client: " ++ e)
          (lift (
            new_cache d (
              with_cache_enabled v.use_cache
              ∷ with_max_size v.max_cache_size
              ∷ with_ttl_duration v.max_cache_ttl
              ∷ [])))
    stored ← set_store cached.1
    pure (record {
      config = record v {
        provider_keychain = with_cached_credentials v.provider_keychain;
        cache = cached.0;
      };
      client = client;
      has_secret_lister = not (is_empty v.image_pull_secrets);
      has_config_map_lister = not (is_empty v.plugin_config_map);
    })

  -- `NewVerifier`.
  unfoldable pub new_verifier_retrying :
      List (VerifierOption Keychain) → Exec (World d) (StartedVerifier Keychain Client)
  unfolding new_verifier
  new_verifier_retrying opts = retry (new_verifier opts)
