-- ===== src/Flags.antt =====
-- main.go and utils.go: the flags of the process, and what is made of them.
pub mod Checked
pub mod Joined
use notation_aws_verifier.Prelude.{
  Str, codes, ℕ, ◌*◌, ◌++◌, ltb, Bool, true, false, not, ◌&&◌, List, [], ◌∷◌, is_empty,
  if◌then◌else◌,
}
use notation_aws_verifier.Prelude.Int.{ℤ, pos, is_nonpos, to_nat, wrap_int64}
use notation_aws_verifier.Prelude.Result.{Result, ok, err}
use notation_aws_verifier.Prelude.Text.Split.{split, trim_space}

pub record Options : Type 0 where
  pub local : Bool
  pub no_tls : Bool
  pub image_pull_secrets : Str
  pub allow_insecure_registry : Bool
  pub plugin_config_map : Str
  pub debug : Bool
  pub max_signature_attempts : ℤ
  pub metrics_addr : Str
  pub probe_addr : Str
  pub leader_elect : Bool
  pub cache_enabled : Bool
  pub cache_max_size : ℤ
  pub cache_ttl_seconds : ℤ
  pub allowed_users : Str
  pub review_kyverno_token : Bool
  pub token_review_audiences : Str
  pub log_level : Str
  pub log_level_set : Bool
  pub log_format : Str
  pub show_version : Bool

unfoldable pub effective_log_level : Options → Str
effective_log_level o = if o.debug && not o.log_level_set then codes "debug" else o.log_level

-- `time.Second`, and `math.MaxInt64 / int64(time.Second)`.
abbrev pub second : ℕ
second = 1000000000

abbrev pub max_seconds : ℕ
max_seconds = 9223372036

-- `%d` prints the number in the error.
unfoldable pub cache_ttl : (ℤ → Str) → Options → Result ℤ
cache_ttl print o =
    if is_nonpos o.cache_ttl_seconds
    then err (codes "invalid --cacheTTLDurationSeconds " ++ print o.cache_ttl_seconds)
    else if ltb max_seconds (to_nat o.cache_ttl_seconds)
    then err (codes "invalid --cacheTTLDurationSeconds " ++ print o.cache_ttl_seconds)
    else ok (wrap_int64 (to_nat o.cache_ttl_seconds * second))

-- The loop over the parts of a list.
unfoldable pub keep_items : List Str → List Str
keep_items [] = []
keep_items (part ∷ parts) =
    let out = keep_items parts in
    let item = trim_space part in if is_empty item then out else item ∷ out

unfoldable pub split_list : Str → List Str
unfolding keep_items
split_list s = keep_items (split s b',')
