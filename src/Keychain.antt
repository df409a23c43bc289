-- ===== src/Keychain.antt =====
-- internal/verifier/keychain.go: the keychain that caches the credentials of a provider by
-- registry. Times are nanoseconds. The two sections under the lock are `lookup` and `remember`;
-- what runs between them does not look at the entries.
pub mod Bounds
pub mod Granted
use notation_aws_verifier.Prelude.{
  Str, ℕ, ◌+◌, ltb, leb, Bool, false, not, Option, none, some, List, [], ◌∷◌, length, if◌then◌else◌,
}
use notation_aws_verifier.Prelude.Map.{Map, keys, lookup, insert, delete}
use notation_aws_verifier.Prelude.Result.{Result, ok, err}
use notation_aws_verifier.Deps.{AuthConfig}

-- The keychain behind the cache, `authn.Anonymous` and `authn.FromConfig`.
pub record Provider : Type 1 where
  pub Target : Type 0
  pub Authenticator : Type 0
  pub registry_str : Target → Str
  pub resolve : ℕ → Target → Result Authenticator
  pub is_anonymous : Authenticator → Bool
  pub authorization : ℕ → Authenticator → Result AuthConfig
  pub from_config : AuthConfig → Authenticator

pub record CachedCredential : Type 0 where
  pub config : AuthConfig
  pub expires : ℕ

-- 15 minutes.
abbrev pub provider_credentials_ttl : ℕ
provider_credentials_ttl = 900000000000

abbrev pub max_cached_registries : ℕ
max_cached_registries = 256

abbrev pub has_expired : ℕ → Option CachedCredential → Bool
has_expired now none = false
has_expired now (some e) = not (ltb now e.expires)

-- `for r, e := range k.entries`, over the keys of the loop.
unfoldable pub delete_expired : ℕ → List Str → Map CachedCredential → Map CachedCredential
delete_expired now [] entries = entries
delete_expired now (r ∷ rs) entries =
    delete_expired now rs (if has_expired now (lookup r entries) then delete r entries else entries)

-- `clear` when the map is still full.
abbrev pub clear_full : Map CachedCredential → Map CachedCredential
clear_full entries = if leb max_cached_registries (length entries) then [] else entries

unfoldable pub make_room : ℕ → Map CachedCredential → Map CachedCredential
unfolding delete_expired
make_room now entries =
    if leb max_cached_registries (length entries)
    then clear_full (delete_expired now (keys entries) entries)
    else entries

-- The second section under the lock.
unfoldable pub remember : ℕ → ℕ → Str → AuthConfig → Map CachedCredential → Map CachedCredential
unfolding make_room
remember ttl now key config entries =
    insert key (record { config = config; expires = now + ttl }) (make_room now entries)

module _ (p : Provider) (ttl now n : ℕ) (target : p.Target) (entries : Map CachedCredential) where
  abbrev pub keep_config : Result AuthConfig → Result p.Authenticator × Map CachedCredential
  keep_config (err e) = (err e, entries)
  keep_config (ok config) =
      (ok (p.from_config config), remember ttl now (p.registry_str target) config entries)

  abbrev pub keep : Result p.Authenticator → Result p.Authenticator × Map CachedCredential
  keep (err e) = (err e, entries)
  keep (ok a) = if p.is_anonymous a then (ok a, entries) else keep_config (p.authorization n a)

  abbrev pub resolve_from : Option CachedCredential → Result p.Authenticator × Map CachedCredential
  resolve_from none = keep (p.resolve n target)
  resolve_from (some e) =
      if ltb now e.expires
      then (ok (p.from_config e.config), entries)
      else keep (p.resolve n target)

  unfoldable pub resolve : Result p.Authenticator × Map CachedCredential
  unfolding remember
  resolve = resolve_from (lookup (p.registry_str target) entries)
