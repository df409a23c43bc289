-- ===== src/Tests/Service.antt =====
-- The service from its start: a request that is answered, and a change of the trust policies.
use notation_aws_verifier.Prelude.{codes, ◌==◌, Bool, true, false, [], ◌∷◌, ◌≡◌, refl, arith}
use notation_aws_verifier.Prelude.Exec.{Exec, wrap, attempt, ◌>>=◌}
use notation_aws_verifier.Prelude.Map.{insert}
use notation_aws_verifier.Prelude.Result.{ok}
use notation_aws_verifier.Prelude.Text.Scan.{contains_char, after_last}
use notation_aws_verifier.Handler.{handle_check_images}
use notation_aws_verifier.Response
use notation_aws_verifier.Response.{add_attestations, add_type}
use notation_aws_verifier.World.{ask}
use notation_aws_verifier.Cache.New.{
  new_cache, apply_options, with_cache_enabled, with_max_size, with_ttl_duration,
}
use notation_aws_verifier.Factory.Names.{PlainFiles}
use notation_aws_verifier.Factory.Refresh.{
  ext, trim_suffix, load_trust_policy, add_verifier, add_verifiers, read_verifiers,
  refresh_verifiers,
}
use notation_aws_verifier.Handler.Refresh.{update_notation_verifier}
use notation_aws_verifier.Prelude.Text.Scan.{contains_char, after_last}
use notation_aws_verifier.Prelude.Result.{Result, ok, err}
use notation_aws_verifier.Prelude.{List, ◌∙◌, if◌then◌else◌, eqb}
use notation_aws_verifier.Service.{crd_changed, context_done, Event, answered, signalled}
use notation_aws_verifier.Startup.{
  unset, Platform, PlatformLaws, StartedVerifier, configure, new_factory, new_verifier,
  new_verifier_retrying,
}
use notation_aws_verifier.Startup.Started.{IsStarted, new_verifier_retrying-IsStarted}
use notation_aws_verifier.Config.{VerifierOption}
use notation_aws_verifier.World.{World}
use notation_aws_verifier.Config.{
  with_image_pull_secrets, with_insecure_registry, with_plugin_config, with_max_signature_attempts,
  with_max_cache_size, with_max_cache_ttl, with_verifier_cache_enabled, with_token_review_enabled,
  with_token_review_audiences, with_enable_debug, with_allowed_users, with_provider_keychain,
}
use notation_aws_verifier.Flags.{cache_ttl}
use notation_aws_verifier.Prelude.{true, []}
use notation_aws_verifier.Prelude.Int.{ℤ, pos, wrap_int64}
use notation_aws_verifier.Startup.Flags.{
  HasFlags, verifier_options, start_verifier, start_verifier-HasFlags,
}
use notation_aws_verifier.Tests.Settings.{defaults}
use notation_aws_verifier.Tests.Verification.{toy_post, toy_reply}
use notation_aws_verifier.Tests.{ToyInfo, toy, toy_laws, toy_config}

-- One more attempt after a failure.
abbrev again : {A : Type 0} → Result A × World toy → Exec (World toy) A → Result A × World toy
again (ok a, w) m = (ok a, w)
again (err e, w) m = m w

abbrev retry_once : {A : Type 0} → Exec (World toy) A → Exec (World toy) A
retry_once m w = again (m w) m

toy_retried :
    {A : Type 0} (m : Exec (World toy) A) (w w' : World toy) (a : A)
    → retry_once m w ≡ (ok a, w')
    → (u : World toy) × (m u ≡ (ok a, w'))
toy_retried {A = A} m w w' a e = by_first (m w) refl e
  where
    by_first :
        (r : Result A × World toy)
        → m w ≡ r
        → again r m ≡ (ok a, w')
        → (u : World toy) × (m u ≡ (ok a, w'))
    by_first (ok b, u) p q = (w, p ∙ q)
    by_first (err x, u) p q = (u, q)

abbrev toy_platform : Platform toy
toy_platform = record {
  KubeConfig = Unit {0};
  Client = Unit {0};
  get_config = λ n. if eqb n 0 then err (codes "not yet") else ok tt;
  new_for_config = λ c. ok tt;
  new_caching_keychain = λ k ttl. k;
  retry = retry_once;
}

abbrev toy_again : PlatformLaws toy_platform
toy_again = record { retried = λ m w w' a e. toy_retried m w w' a e }

toy_plain : PlainFiles toy
unfolding contains_char codes
toy_plain n es h =
    let same : (record { name = codes "tp.json"; is_dir = false } ∷ []) ≡ es = ground arith in
    rw (← same) (refl, tt)

abbrev toy_options : List (VerifierOption (Unit {0}))
toy_options = (λ c. toy_config) ∷ []

-- The first attempt fails.
abbrev toy_empty : World toy
toy_empty = record { calls = 0; store = []; verifiers = [] }

abbrev toy_started : StartedVerifier (Unit {0}) (Unit {0})
toy_started = record {
  config = toy_config;
  client = tt;
  has_secret_lister = false;
  has_config_map_lister = false;
}

abbrev toy_running : World toy
toy_running = record {
  calls = 6;
  store = [];
  verifiers = (codes "tp", codes "/tmp/notation/tp.json") ∷ [];
}

toy_starts :
    new_verifier_retrying toy toy_platform toy_options toy_empty ≡ (ok toy_started, toy_running)
unfolding new_verifier_retrying new_verifier configure new_factory refresh_verifiers read_verifiers
    add_verifiers add_verifier load_trust_policy ext trim_suffix after_last contains_char insert
    new_cache apply_options with_cache_enabled with_max_size with_ttl_duration ask wrap attempt
    ◌>>=◌ codes ◌==◌
toy_starts = refl

new_verifier_retrying-IsStarted_example :
    IsStarted toy toy_laws toy_platform toy_again toy_options toy_plain toy_started toy_running
new_verifier_retrying-IsStarted_example =
    new_verifier_retrying-IsStarted toy toy_laws toy_platform toy_again toy_options toy_plain
      toy_empty toy_running toy_started toy_starts

abbrev toy_ttl : ℤ
toy_ttl = pos 3600000000000

toy_fits : cache_ttl (λ z. []) defaults ≡ ok toy_ttl
unfolding cache_ttl wrap_int64
toy_fits = refl

abbrev toy_flagged : StartedVerifier (Unit {0}) (Unit {0})
toy_flagged = record {
  config = record (configure (verifier_options tt toy_ttl defaults) unset) {
    cache = record { use_cache = true; ttl = toy_ttl; max_size = pos 1000 };
  };
  client = tt;
  has_secret_lister = false;
  has_config_map_lister = true;
}

toy_starts_flagged :
    start_verifier toy toy_platform tt toy_ttl defaults toy_empty ≡ (ok toy_flagged, toy_running)
unfolding start_verifier verifier_options new_verifier_retrying new_verifier configure new_factory
    refresh_verifiers read_verifiers add_verifiers add_verifier load_trust_policy ext trim_suffix
    after_last contains_char insert new_cache apply_options with_cache_enabled with_max_size
    with_ttl_duration ask wrap attempt ◌>>=◌ codes ◌==◌ with_image_pull_secrets
    with_insecure_registry with_plugin_config with_max_signature_attempts with_max_cache_size
    with_max_cache_ttl with_verifier_cache_enabled with_token_review_enabled
    with_token_review_audiences with_enable_debug with_allowed_users with_provider_keychain
toy_starts_flagged = refl

-- The verifier of the default flags.
start_verifier-HasFlags_example : HasFlags toy defaults toy_flagged.config
start_verifier-HasFlags_example =
    start_verifier-HasFlags toy toy_laws toy_platform toy_again toy_plain (λ z. []) tt defaults
      toy_ttl toy_empty toy_running toy_flagged toy_fits toy_starts_flagged

abbrev toy_answered : World toy
toy_answered = (handle_check_images toy toy_config toy_post toy_running).1

abbrev toy_updated : World toy
toy_updated = (update_notation_verifier toy toy_answered).1

abbrev toy_events : List (Event ToyInfo Bool)
toy_events =
    answered toy_post toy_reply ∷ signalled false crd_changed ∷ signalled true context_done ∷ []
