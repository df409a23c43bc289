-- ===== src/Startup/Flags.antt =====
-- main.go: the verifier that `run` starts, by the flags of the process.
use notation_aws_verifier.Prelude.{
  Str, codes, ◌++◌, ℕ, ◌*◌, List, [], ◌∷◌, ◌≡◌, refl, ap, ◌∙◌, arith, zero, suc, ◌≤◌,
}
use notation_aws_verifier.Prelude.Exec.{Exec, wrap}
use notation_aws_verifier.Prelude.Int.{ℤ, pos}
use notation_aws_verifier.Prelude.Result.{Result, ok, err, map_err}
use notation_aws_verifier.Cache.New.{or_default, default_max_size, default_ttl}
use notation_aws_verifier.Config.{
  VerifierConfig, VerifierOption, with_image_pull_secrets, with_insecure_registry,
  with_plugin_config, with_max_signature_attempts, with_max_cache_size, with_max_cache_ttl,
  with_verifier_cache_enabled, with_token_review_enabled, with_token_review_audiences,
  with_enable_debug, with_allowed_users, with_provider_keychain,
}
use notation_aws_verifier.Deps.{Deps, RistrettoLaws}
use notation_aws_verifier.Factory.Names.{PlainFiles}
use notation_aws_verifier.Flags.{Options, second, cache_ttl, split_list}
use notation_aws_verifier.Flags.Checked.{cache_ttl_lem}
use notation_aws_verifier.Startup.{
  Platform, PlatformLaws, StartedVerifier, configure, new_verifier_retrying,
}
use notation_aws_verifier.Startup.Started.{IsStarted, new_verifier_retrying-IsStarted}
use notation_aws_verifier.World.{World}

-- The arguments of `NewVerifier`; the keychain is that of the ECR helper.
unfoldable pub verifier_options :
    {Keychain : Type 0} → Keychain → ℤ → Options → List (VerifierOption Keychain)
unfolding split_list with_image_pull_secrets with_insecure_registry with_plugin_config
    with_max_signature_attempts with_max_cache_size with_max_cache_ttl with_verifier_cache_enabled
    with_token_review_enabled with_token_review_audiences with_enable_debug with_allowed_users
    with_provider_keychain
verifier_options keychain ttl o =
    with_image_pull_secrets o.image_pull_secrets
    ∷ with_insecure_registry o.allow_insecure_registry
    ∷ with_plugin_config o.plugin_config_map
    ∷ with_max_signature_attempts o.max_signature_attempts
    ∷ with_enable_debug o.debug
    ∷ with_provider_keychain keychain
    ∷ with_token_review_enabled o.review_kyverno_token
    ∷ with_token_review_audiences (split_list o.token_review_audiences)
    ∷ with_verifier_cache_enabled o.cache_enabled
    ∷ with_max_cache_size o.cache_max_size
    ∷ with_max_cache_ttl ttl
    ∷ with_allowed_users (split_list o.allowed_users)
    ∷ []

module _ (d : Deps) (p : Platform d) where
  open d use {Keychain}

  -- `NewVerifier` as `run` calls it.
  unfoldable pub start_verifier :
      Keychain → ℤ → Options → Exec (World d) (StartedVerifier Keychain p.Client)
  unfolding verifier_options new_verifier_retrying
  start_verifier keychain ttl o =
      wrap (λ e. codes "failed to initialize verifier: " ++ e)
        (new_verifier_retrying d p (verifier_options keychain ttl o))

module _ (d : Deps) where
  open d use {Keychain}

  -- What a running verifier has of the flags.
  pub record HasFlags (o : Options) (c : VerifierConfig Keychain) : Type 0 where
    pub seconds : ℕ
    pub given : o.cache_ttl_seconds ≡ pos seconds
    pub ttl : c.cache.ttl ≡ pos (seconds * second)
    pub max_size : c.cache.max_size ≡ or_default o.cache_max_size default_max_size
    pub use_cache : c.cache.use_cache ≡ o.cache_enabled
    pub review : c.review_token ≡ o.review_kyverno_token
    pub users : c.allowed_users ≡ split_list o.allowed_users
    pub audiences : c.token_review_audiences ≡ split_list o.token_review_audiences
    pub debug : c.debug ≡ o.debug
    pub attempts : c.max_signature_attempts ≡ o.max_signature_attempts
    pub insecure : c.insecure_registry ≡ o.allow_insecure_registry
    pub secrets : c.image_pull_secrets ≡ o.image_pull_secrets
    pub plugins : c.plugin_config_map ≡ o.plugin_config_map

-- Behind the wording of an error, a success is a success.
wrap-eq-ok :
    {S A : Type 0} (f : Str → Str) (m : Exec S A) (s t : S) (a : A)
    → wrap f m s ≡ (ok a, t)
    → m s ≡ (ok a, t)
unfolding wrap
wrap-eq-ok {S = S} {A} f m s t a e = by_result (m s).0 (m s).1 e
  where
    by_result :
        (r : Result A) (u : S)
        → ◌≡◌ {A = Result A × S} (map_err f r, u) (ok a, t)
        → ◌≡◌ {A = Result A × S} (r, u) (ok a, t)
    by_result (ok b) u h = h
    by_result (err x) u h = absurd (ground arith)

or_default-pos : (m : ℕ) (z : ℤ) → 1 ≤ m → or_default (pos m) z ≡ pos m
or_default-pos (suc m) z h = refl
or_default-pos zero z h = absurd (omega arith)

module _ (d : Deps) (laws : RistrettoLaws d.ristretto) (p : Platform d) (again : PlatformLaws p)
    (plain : PlainFiles d) where
  -- If the directory of the trust policies never lists a name with a semicolon, the store of the
  -- cache holds only what was set, a retry succeeds only with an attempt that does, and the number
  -- of seconds of the flags is accepted: a verifier that `run` starts reviews tokens and allows
  -- users as the flags say, has their settings of registries and plugins, and has a cache of the
  -- size that they say, 1000 if that is not positive, whose time to live is their number of seconds
  -- in nanoseconds, not the default.
  pub start_verifier-HasFlags :
      (print : ℤ → Str) (keychain : d.Keychain) (o : Options) (ttl : ℤ) (w w' : World d)
      (v : StartedVerifier d.Keychain p.Client)
      → cache_ttl print o ≡ ok ttl
      → start_verifier d p keychain ttl o w ≡ (ok v, w')
      → HasFlags d o v.config
  unfolding start_verifier verifier_options configure with_image_pull_secrets with_insecure_registry
      with_plugin_config with_max_signature_attempts with_max_cache_size with_max_cache_ttl
      with_verifier_cache_enabled with_token_review_enabled with_token_review_audiences
      with_enable_debug with_allowed_users with_provider_keychain
  start_verifier-HasFlags print keychain o ttl w w' v fits started =
      let (n, given, positive, time, _) = cache_ttl_lem print o ttl fits in
      let opts = verifier_options keychain ttl o in
      let s : IsStarted d laws p again opts plain v w' =
        new_verifier_retrying-IsStarted d laws p again opts plain w w' v
          (wrap-eq-ok _ (new_verifier_retrying d p opts) w w' v started) in
      record {
        seconds = n;
        given = given;
        ttl =
            ap (λ c. c.ttl) s.cached
            ∙ ap (λ t. or_default t default_ttl) time
            ∙ or_default-pos (n * second) default_ttl (omega arith);
        max_size = ap (λ c. c.max_size) s.cached;
        use_cache = ap (λ c. c.use_cache) s.cached;
        review = ap (λ c. c.review_token) s.settings;
        users = ap (λ c. c.allowed_users) s.settings;
        audiences = ap (λ c. c.token_review_audiences) s.settings;
        debug = ap (λ c. c.debug) s.settings;
        attempts = ap (λ c. c.max_signature_attempts) s.settings;
        insecure = ap (λ c. c.insecure_registry) s.settings;
        secrets = ap (λ c. c.image_pull_secrets) s.settings;
        plugins = ap (λ c. c.plugin_config_map) s.settings;
      }
