-- ===== src/Startup/Started.antt =====
-- internal/verifier: what a verifier that has started relies on.
use notation_aws_verifier.Prelude.{◌*◌, false, not, List, [], ◌∷◌, ◌≡◌, refl, arith, is_empty}
use notation_aws_verifier.Prelude.Exec.{pure, lift, ◌>>=◌}
use notation_aws_verifier.Prelude.Exec.Triple.{
  Triple, Triple-pure, Triple-wrap, Triple-bind, Triple-any, Triple-ok,
}
use notation_aws_verifier.Prelude.Int.{is_nonpos, to_nat, wrap_int64}
use notation_aws_verifier.Prelude.Result.{Result, ok, err, map_ok}
use notation_aws_verifier.Cache.{Cache}
use notation_aws_verifier.Cache.New.{
  new_cache, with_cache_enabled, with_max_size, with_ttl_duration, or_default, default_max_size,
  new_cache-positive, default_ttl, new_cache_lem,
}
use notation_aws_verifier.Config.{VerifierConfig, VerifierOption}
use notation_aws_verifier.Deps.{Deps, RistrettoLaws}
use notation_aws_verifier.Factory.Names.{PlainFiles, refresh_verifiers-PlainNames}
use notation_aws_verifier.Startup.{
  Platform, PlatformLaws, StartedVerifier, unset, configure, set_store, with_cached_credentials,
  new_verifier, new_verifier_retrying,
}
use notation_aws_verifier.Verify.Sound.References.{Sound, PlainNames}
use notation_aws_verifier.World.{World}

module _ {S A : Type 0} where
  pub Triple-lift :
      {P : S → Type 0} (r : Result A)
      → Triple P (lift r) (λ a s. (r ≡ ok a) × P s) (λ _ _. Unit {0})
  Triple-lift (ok a) = Triple-pure a (λ s h. (refl, h))
  Triple-lift (err e) = record { run = λ s h. tt }

module _ (d : Deps) (laws : RistrettoLaws d.ristretto) (p : Platform d) (again : PlatformLaws p)
    (opts : List (VerifierOption d.Keychain)) (plain : PlainFiles d) where
  open d use {Keychain, Store}
  open p use {Client}

  abbrev asked : VerifierConfig Keychain
  asked = configure opts unset

  -- The cache is sound and as it was asked for, no verifier is named with a semicolon, and a lister
  -- is there for what is configured.
  pub record IsStarted (v : StartedVerifier Keychain Client) (w : World d) : Type 0 where
    pub sound : Sound d laws w.verifiers w
    pub names : PlainNames w.verifiers
    pub size : is_nonpos v.config.cache.max_size ≡ false
    pub time : is_nonpos v.config.cache.ttl ≡ false
    pub cached : v.config.cache ≡ record {
      use_cache = asked.use_cache;
      ttl = or_default asked.max_cache_ttl default_ttl;
      max_size = or_default asked.max_cache_size default_max_size;
    }
    pub settings : v.config ≡ record asked {
      provider_keychain = with_cached_credentials d p asked.provider_keychain;
      cache = v.config.cache;
    }
    pub secrets : v.has_secret_lister ≡ not (is_empty v.config.image_pull_secrets)
    pub config_maps : v.has_config_map_lister ≡ not (is_empty v.config.plugin_config_map)

  abbrev cache_of_options : Result (Cache × Store)
  cache_of_options = new_cache d (
      with_cache_enabled asked.use_cache
      ∷ with_max_size asked.max_cache_size
      ∷ with_ttl_duration asked.max_cache_ttl
      ∷ [])

  -- The store of a new cache is a new store.
  made :
      (r : Result Store) (f : Store → Cache) (c : Cache) (s : Store)
      → map_ok {B = Cache × Store} (λ store. (f store, store)) r ≡ ok (c, s)
      → (r ≡ ok s) × (c ≡ f s)
  made (ok store) f c s h = ground arith
  made (err e) f c s h = absurd (ground arith)

  started :
      (client : Client) (cached : Cache × Store)
      → cache_of_options ≡ ok cached
      → Triple
          (λ w. PlainNames w.verifiers)
          (set_store d p cached.1 >>= λ _. pure (record {
            config = record asked {
              provider_keychain = with_cached_credentials d p asked.provider_keychain;
              cache = cached.0;
            };
            client = client;
            has_secret_lister = not (is_empty asked.image_pull_secrets);
            has_config_map_lister = not (is_empty asked.plugin_config_map);
          }))
          IsStarted
          (λ _ _. Unit)
  unfolding ◌>>=◌
  started client (c, store) e =
      let (positive, positive_ttl) = new_cache-positive d _ c store e in
      let (new, c_is) =
        made
          (d.new_store (wrap_int64 (to_nat (or_default asked.max_cache_size default_max_size) * 10))
            (or_default asked.max_cache_size default_max_size))
          _ c store (rw new_cache_lem at e) in
      record {
        run = λ w h. record {
          sound = record {
            same = refl;
            held = λ k x held. absurd (laws.not_held_new _ _ store k x new held);
          };
          names = h;
          size = positive;
          time = positive_ttl;
          cached = c_is;
          settings = refl;
          secrets = refl;
          config_maps = refl;
        };
      }

  attempt_lem : Triple (λ _. Unit) (new_verifier d p opts) IsStarted (λ _ _. Unit)
  unfolding new_verifier
  attempt_lem = Triple-bind _ _ (Triple-any _) (λ config. Triple-bind _ _ (Triple-any _) (λ client.
      Triple-bind _ _ (Triple-any _) (λ _.
        Triple-bind _ _ (Triple-wrap _ _ _ _ (refresh_verifiers-PlainNames d plain)) (λ _.
          Triple-bind _ _ (Triple-wrap _ _ _ _ (Triple-lift cache_of_options))
            (λ cached. record { run = λ w (e, names). (started client cached e).run w names })))))

  -- If the directory of the trust policies never lists a name with a semicolon, the store of the
  -- cache holds only what was set, and a retry succeeds only with an attempt that does: a verifier
  -- that `NewVerifier` returns, after however many attempts, has a cache that is sound for its
  -- verifiers, none of which is named with a semicolon; the cache has a positive size and time to
  -- live, those of the options or else the defaults, and is on just if the options say so; all
  -- other settings are those of the options, but that the credentials of the keychain are cached;
  -- and there is a lister of secrets, or of config maps,
  -- just if the options name some.
  pub new_verifier_retrying-IsStarted :
      (w w' : World d) (v : StartedVerifier Keychain Client)
      → new_verifier_retrying d p opts w ≡ (ok v, w')
      → IsStarted v w'
  unfolding new_verifier_retrying
  new_verifier_retrying-IsStarted w w' v e =
      let (u, attempt) = again.retried (new_verifier d p opts) w w' v e in
      Triple-ok _ attempt_lem u w' v tt attempt
