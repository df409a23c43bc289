-- ===== src/Cache/New.antt =====
-- `New` of internal/cache/client.go: the settings of the cache, and what it makes of its options.
use notation_aws_verifier.Prelude.{
  zero, suc, ◌⊎◌, inl, inr, true, ◌*◌, Bool, false, List, [], ◌∷◌, ◌≡◌, refl, arith, if◌then◌else◌,
}
use notation_aws_verifier.Prelude.Int.{ℤ, pos, negsuc, is_nonpos, to_nat, wrap_int64}
use notation_aws_verifier.Prelude.Result.{Result, ok, err, map_ok, ◌>>=◌}
use notation_aws_verifier.Deps.{Deps}
use notation_aws_verifier.Cache.{Cache}

abbrev pub default_max_size : ℤ
default_max_size = pos 1000

abbrev pub default_ttl : ℤ
default_ttl = pos 3600000000000

abbrev pub CacheOption : Type 0
CacheOption = Cache → Result Cache

unfoldable pub with_cache_enabled : Bool → CacheOption
with_cache_enabled b c = ok (record c { use_cache = b })

unfoldable pub with_max_size : ℤ → CacheOption
with_max_size s c = ok (record c { max_size = s })

unfoldable pub with_ttl_duration : ℤ → CacheOption
with_ttl_duration t c = ok (record c { ttl = t })

unfoldable pub apply_options : List CacheOption → Cache → Result Cache
apply_options [] c = ok c
apply_options (o ∷ os) c = do c' ← o c; apply_options os c'

abbrev pub or_default : ℤ → ℤ → ℤ
or_default z d = if is_nonpos z then d else z

-- The value that was given, where it is positive, and else the default.
abbrev pub Chosen : ℤ → ℤ → ℤ → Type 0
Chosen given default r =
    ((is_nonpos given ≡ false) × (r ≡ given)) ⊎ ((is_nonpos given ≡ true) × (r ≡ default))

or_default-Chosen : (z d : ℤ) → Chosen z d (or_default z d)
or_default-Chosen (pos zero) d = inr (refl, refl)
or_default-Chosen (pos (suc n)) d = inl (refl, refl)
or_default-Chosen (negsuc n) d = inr (refl, refl)

-- A default in place of a size or a time that is not positive.
or_default-positive : (z d : ℤ) → is_nonpos d ≡ false → is_nonpos (or_default z d) ≡ false
or_default-positive z d h = ground arith

module _ (d : Deps) where
  open d use {Store, new_store}

  -- `New`: the settings, and the store, whose maximal cost is the number of entries.
  unfoldable pub new_cache : List CacheOption → Result (Cache × Store)
  unfolding apply_options
  new_cache options = do
    c ←
        apply_options options
          (record { use_cache = false; ttl = default_ttl; max_size = default_max_size })
    let size = or_default c.max_size default_max_size
    let bounded = record c { max_size = size; ttl = or_default c.ttl default_ttl }
    store ← new_store (wrap_int64 (to_nat size * 10)) size
    ok (bounded, store)

  -- Whatever the options are, a cache that `New` returns has a positive size and time to live.
  pub new_cache-positive :
      (options : List CacheOption) (c : Cache) (store : d.Store)
      → new_cache options ≡ ok (c, store)
      → (is_nonpos c.max_size ≡ false) × (is_nonpos c.ttl ≡ false)
  unfolding new_cache
  new_cache-positive options c store h =
      ground
        (arith, or_default-positive _ default_max_size refl, or_default-positive _ default_ttl refl)

  -- What the call of `newVerifier` comes down to.
  pub new_cache_lem :
      (use_cache : Bool) (size ttl : ℤ)
      → new_cache (with_cache_enabled use_cache ∷ with_max_size size ∷ with_ttl_duration ttl ∷ [])
        ≡ (let size' = or_default size default_max_size in
            map_ok
              (λ store. (
                record {
                  use_cache = use_cache;
                  ttl = or_default ttl default_ttl;
                  max_size = size';
                },
                store,
              ))
              (d.new_store (wrap_int64 (to_nat size' * 10)) size'))
  unfolding new_cache with_cache_enabled with_max_size with_ttl_duration
  new_cache_lem use_cache size ttl = ground arith

  -- A cache that the call of `newVerifier` makes is on just if that was asked for; its size and its
  -- time to live are those that were asked for where they are positive, and else 1000 entries and an
  -- hour; and its store was made for exactly that many entries, with ten counters for each.
  pub new_cache-Chosen :
      (use_cache : Bool) (size ttl : ℤ) (c : Cache) (store : Store)
      → new_cache (with_cache_enabled use_cache ∷ with_max_size size ∷ with_ttl_duration ttl ∷ [])
        ≡ ok (c, store)
      → (c.use_cache ≡ use_cache)
        × Chosen size (pos 1000) c.max_size
        × Chosen ttl (pos 3600000000000) c.ttl
        × (new_store (wrap_int64 (to_nat c.max_size * 10)) c.max_size ≡ ok store)
  new_cache-Chosen use_cache size ttl c store h = by_store _ refl (rw new_cache_lem at h)
    where
      by_store :
          (r : Result Store)
          → new_store
              (wrap_int64 (to_nat (or_default size default_max_size) * 10))
              (or_default size default_max_size)
            ≡ r
          → map_ok {B = Cache × Store}
              (λ store. (
                record {
                  use_cache = use_cache;
                  ttl = or_default ttl default_ttl;
                  max_size = or_default size default_max_size;
                },
                store,
              ))
              r
            ≡ ok (c, store)
          → (c.use_cache ≡ use_cache)
            × Chosen size (pos 1000) c.max_size
            × Chosen ttl (pos 3600000000000) c.ttl
            × (new_store (wrap_int64 (to_nat c.max_size * 10)) c.max_size ≡ ok store)
      by_store (err e) q h = absurd (ground arith)
      by_store (ok made) q h =
          let c_is : record {
            use_cache = use_cache;
            ttl = or_default ttl default_ttl;
            max_size = or_default size default_max_size;
          }
              ≡ c =
            ground arith in
          let same : made ≡ store = ground arith in
          rw (← c_is, ← same)
            (refl, or_default-Chosen size (pos 1000), or_default-Chosen ttl (pos 3600000000000), q)
