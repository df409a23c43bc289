-- ===== src/Keychain/Bounds.antt =====
-- The credential cache never grows over its bound.
use notation_aws_verifier.Prelude.{
  Str, ℕ, suc, ◌≤◌, ◌<◌, ltb, Option, none, some, [], ◌∷◌, length, arith, if_both,
}
use notation_aws_verifier.Prelude.Map.{Map, lookup, insert}
use notation_aws_verifier.Prelude.Result.{Result, ok, err}
use notation_aws_verifier.Deps.{AuthConfig}
use notation_aws_verifier.Keychain.{
  Provider, CachedCredential, max_cached_registries, make_room, remember, keep_config, keep,
  resolve_from, resolve,
}

length-insert : {V : Type 0} (k : Str) (v : V) (m : Map V) → length (insert k v m) ≤ suc (length m)
unfolding insert
length-insert k v [] = omega arith
length-insert k v ((j, w) ∷ m) = ground (arith, length-insert k v m)

length-make_room :
    (now : ℕ) (entries : Map CachedCredential)
    → length (make_room now entries) < max_cached_registries
unfolding make_room
length-make_room now entries = ground arith

-- After an entry is remembered the cache holds 256 entries at most, whatever it held before.
pub length-remember :
    (ttl now : ℕ) (key : Str) (config : AuthConfig) (entries : Map CachedCredential)
    → length (remember ttl now key config entries) ≤ max_cached_registries
unfolding remember
length-remember ttl now key config entries =
    omega (arith, length-insert key _ (make_room now entries), length-make_room now entries)

module _ (p : Provider) (ttl now n : ℕ) (target : p.Target) (entries : Map CachedCredential) where
  abbrev Bounded : Result p.Authenticator × Map CachedCredential → Type 0
  Bounded r = length r.1 ≤ max_cached_registries

  length-keep_config :
      (r : Result AuthConfig)
      → length entries ≤ max_cached_registries
      → length (keep_config p ttl now n target entries r).1 ≤ max_cached_registries
  length-keep_config (err e) h = h
  length-keep_config (ok config) h = length-remember ttl now _ config entries

  length-keep :
      (r : Result p.Authenticator)
      → length entries ≤ max_cached_registries
      → length (keep p ttl now n target entries r).1 ≤ max_cached_registries
  length-keep (err e) h = h
  length-keep (ok a) h =
      if_both Bounded (p.is_anonymous a) (ok a, entries) _ (λ _. h)
        (λ _. length-keep_config (p.authorization n a) h)

  length-resolve_from :
      (o : Option CachedCredential)
      → length entries ≤ max_cached_registries
      → length (resolve_from p ttl now n target entries o).1 ≤ max_cached_registries
  length-resolve_from none h = length-keep (p.resolve n target) h
  length-resolve_from (some e) h =
      if_both Bounded (ltb now e.expires) (ok (p.from_config e.config), entries) _ (λ _. h)
        (λ _. length-keep (p.resolve n target) h)

  -- If the cache holds 256 entries at most, so it does after `Resolve`, whatever the provider
  -- answers.
  pub length-resolve :
      length entries ≤ max_cached_registries
      → length (resolve p ttl now n target entries).1 ≤ max_cached_registries
  unfolding resolve
  length-resolve h = length-resolve_from (lookup (p.registry_str target) entries) h
