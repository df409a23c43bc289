-- ===== src/Tests/Credentials.antt =====
-- The credential cache with a provider that knows one registry.
use notation_aws_verifier.Prelude.{
  Str, codes, ℕ, ◌*◌, ◌≤◌, ==_iff, false, some, [], ◌∷◌, ◌≡◌, refl, arith, length,
}
use notation_aws_verifier.Prelude.Exec.Keeps.{Returns}
use notation_aws_verifier.Prelude.Map.{Map, lookup}
use notation_aws_verifier.Prelude.Result.{ok}
use notation_aws_verifier.Deps.{AuthConfig}
use notation_aws_verifier.Keychain.{
  Provider, CachedCredential, provider_credentials_ttl, max_cached_registries, resolve,
}
use notation_aws_verifier.Keychain.Bounds.{length-resolve}
use notation_aws_verifier.Keychain.Granted.{IsGranted, Justified, resolve_lem}

abbrev config : AuthConfig
config = record {
  username = codes "AWS";
  password = codes "secret";
  identity_token = [];
  registry_token = [];
}

abbrev ecr : Provider
ecr = record {
  Target = Str;
  Authenticator = AuthConfig;
  registry_str = λ t. t;
  resolve = λ n t. ok config;
  is_anonymous = λ a. false;
  authorization = λ n a. ok a;
  from_config = λ c. c;
}

-- The first call is made at the time 0, each other five nanoseconds later.
abbrev toy_clock : ℕ → ℕ
toy_clock n = n * 5

-- One entry that expires at the time-to-live.
abbrev one_entry : Map CachedCredential
one_entry = (codes "ecr", record { config = config; expires = provider_credentials_ttl }) ∷ []

one_entry-IsGranted : IsGranted ecr toy_clock provider_credentials_ttl one_entry
unfolding lookup
one_entry-IsGranted key e h =
    let (p, q) = granted key e h in
    record {
      target = codes "ecr";
      same_registry = p;
      call = 0;
      authenticator = config;
      resolved = refl;
      named = refl;
      authorized = rw (← q) refl;
      lifetime = rw (← q) refl;
    }
  where
    granted :
        (key : Str) (e : CachedCredential)
        → lookup key one_entry ≡ some e
        → (codes "ecr" ≡ key) × (record { config = config; expires = provider_credentials_ttl } ≡ e)
    granted key e h = ground (arith, ==_iff (codes "ecr") key)

-- At the time 5 the entry is still good.
resolve_lem_example :
    Returns
      (Justified ecr toy_clock provider_credentials_ttl 5 1 (codes "ecr") one_entry)
      (resolve ecr provider_credentials_ttl 5 1 (codes "ecr") one_entry).0
    × IsGranted ecr toy_clock provider_credentials_ttl
        (resolve ecr provider_credentials_ttl 5 1 (codes "ecr") one_entry).1
resolve_lem_example =
    resolve_lem ecr toy_clock provider_credentials_ttl 5 1 (codes "ecr") one_entry refl
      one_entry-IsGranted

length-resolve_example :
    length (resolve ecr provider_credentials_ttl 5 1 (codes "other") one_entry).1
    ≤ max_cached_registries
length-resolve_example =
    length-resolve ecr provider_credentials_ttl 5 1 (codes "other") one_entry (omega arith)
