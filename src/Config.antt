-- ===== src/Config.antt =====
-- The `verifier` struct of internal/verifier/client.go and its options: what is fixed once the
-- verifier is made. What changes later is in the world.
use notation_aws_verifier.Prelude.{Str, Bool, Option, some, List}
use notation_aws_verifier.Prelude.Int.{ℤ}
use notation_aws_verifier.Cache.{Cache}

-- Durations are in nanoseconds.
pub record VerifierConfig (Keychain : Type 0) : Type 0 where
  pub provider_keychain : Option Keychain
  pub image_pull_secrets : Str
  pub insecure_registry : Bool
  pub plugin_config_map : Str
  pub max_signature_attempts : ℤ
  pub max_cache_size : ℤ
  pub use_cache : Bool
  pub review_token : Bool
  pub token_review_audiences : List Str
  pub max_cache_ttl : ℤ
  pub debug : Bool
  pub cache : Cache
  pub allowed_users : List Str

abbrev pub VerifierOption : Type 0 → Type 0
VerifierOption Keychain = VerifierConfig Keychain → VerifierConfig Keychain

module _ {Keychain : Type 0} where
  unfoldable pub with_image_pull_secrets : Str → VerifierOption Keychain
  with_image_pull_secrets secrets v = record v { image_pull_secrets = secrets }

  unfoldable pub with_insecure_registry : Bool → VerifierOption Keychain
  with_insecure_registry b v = record v { insecure_registry = b }

  unfoldable pub with_plugin_config : Str → VerifierOption Keychain
  with_plugin_config name v = record v { plugin_config_map = name }

  unfoldable pub with_max_signature_attempts : ℤ → VerifierOption Keychain
  with_max_signature_attempts n v = record v { max_signature_attempts = n }

  unfoldable pub with_max_cache_size : ℤ → VerifierOption Keychain
  with_max_cache_size n v = record v { max_cache_size = n }

  unfoldable pub with_max_cache_ttl : ℤ → VerifierOption Keychain
  with_max_cache_ttl t v = record v { max_cache_ttl = t }

  unfoldable pub with_verifier_cache_enabled : Bool → VerifierOption Keychain
  with_verifier_cache_enabled b v = record v { use_cache = b }

  unfoldable pub with_token_review_enabled : Bool → VerifierOption Keychain
  with_token_review_enabled b v = record v { review_token = b }

  unfoldable pub with_token_review_audiences : List Str → VerifierOption Keychain
  with_token_review_audiences audiences v = record v { token_review_audiences = audiences }

  unfoldable pub with_enable_debug : Bool → VerifierOption Keychain
  with_enable_debug b v = record v { debug = b }

  unfoldable pub with_allowed_users : List Str → VerifierOption Keychain
  with_allowed_users users v = record v { allowed_users = users }

  unfoldable pub with_provider_keychain : Keychain → VerifierOption Keychain
  with_provider_keychain keychain v = record v { provider_keychain = some keychain }
