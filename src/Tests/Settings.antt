-- ===== src/Tests/Settings.antt =====
-- The flags at concrete values.
use notation_aws_verifier.Prelude.{codes, ℕ, ◌*◌, ◌^◌, ◌≤◌, ◌<◌, ◌≡◌, false, true, All, refl, []}
use notation_aws_verifier.Prelude.{◌∷◌, arith}
use notation_aws_verifier.Prelude.Text.Scan.{contains_char}
use notation_aws_verifier.Prelude.Text.Split.{is_space}
use notation_aws_verifier.Prelude.Int.{pos, wrap_int64}
use notation_aws_verifier.Flags.{Options, second, cache_ttl, split_list}
use notation_aws_verifier.Flags.Joined.{split_list-join_items}
use notation_aws_verifier.Flags.Checked.{IsTrimmed, split_list-IsTrimmed, cache_ttl_lem}

-- The defaults of `parseFlags`, with one allowed user.
abbrev pub defaults : Options
defaults = record {
  local = false;
  no_tls = false;
  image_pull_secrets = [];
  allow_insecure_registry = false;
  plugin_config_map = codes "notation-plugin-config";
  debug = false;
  max_signature_attempts = pos 30;
  metrics_addr = codes ":8080";
  probe_addr = codes ":8081";
  leader_elect = false;
  cache_enabled = true;
  cache_max_size = pos 1000;
  cache_ttl_seconds = pos 3600;
  allowed_users = codes "kyverno";
  review_kyverno_token = true;
  token_review_audiences = [];
  log_level = codes "info";
  log_level_set = false;
  log_format = codes "text";
  show_version = false;
}

split_list-IsTrimmed_example : All IsTrimmed (split_list (codes " kyverno ,, admin,"))
split_list-IsTrimmed_example = split_list-IsTrimmed (codes " kyverno ,, admin,")

cache_ttl_lem_example :
    (n : ℕ) × (pos 3600 ≡ pos n)
    × (1 ≤ n)
    × (pos 3600000000000 ≡ pos (n * second))
    × (n * second < 2 ^ 63)
unfolding cache_ttl wrap_int64
cache_ttl_lem_example = cache_ttl_lem (λ z. []) defaults (pos 3600000000000) refl

-- Two elements, with a blank inside one of them.
split_list-join_items_example :
    split_list (codes "system:admin,night shift") ≡ codes "system:admin" ∷ codes "night shift" ∷ []
unfolding codes is_space contains_char
split_list-join_items_example =
    split_list-join_items (codes "system:admin" ∷ codes "night shift" ∷ [])
      ((((λ e. ground arith), refl, refl), refl), ((((λ e. ground arith), refl, refl), refl), tt))
