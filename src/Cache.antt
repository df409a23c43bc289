-- ===== src/Cache.antt =====
-- internal/cache/client.go: the bounded cache for verification outcomes, over ristretto.
pub mod Keys
pub mod New
pub mod Sound
use notation_aws_verifier.Prelude.{
  Str, codes, ℕ, suc, ◌*◌, ◌++◌, Bool, true, false, Option, none, some, List, [], ◌∷◌,
  if◌then◌else◌,
}
use notation_aws_verifier.Prelude.Int.{ℤ, pos, is_nonpos, to_nat, wrap_int64}
use notation_aws_verifier.Prelude.Exec.{Exec, pure, lift, wrap, ◌>>=◌}
use notation_aws_verifier.Prelude.Result.{Result, ok, err, map_ok}
use notation_aws_verifier.Types.{Image, AnyAllConditions}
use notation_aws_verifier.Deps.{Deps, Entry, image, attestation_verified}
use notation_aws_verifier.World.{World}

-- The settings of `cache`; durations are in nanoseconds.
pub record Cache : Type 0 where
  pub use_cache : Bool
  pub ttl : ℤ
  pub max_size : ℤ

unfoldable pub create_image_key : Str → Str → Str
create_image_key trust_policy image_ref = trust_policy ++ (codes ";" ++ image_ref)

module _ (d : Deps) where
  open d use {Info, Condition, Store, get_entry, set_with_ttl, clear, marshal_conditions}

  unfoldable pub create_attestation_key :
      Str → Str → Str → List (AnyAllConditions Condition) → Result Str
  create_attestation_key trust_policy image_ref attestation_type conditions =
      map_ok
        (λ c.
          trust_policy
          ++ (codes ";" ++ (image_ref ++ (codes ";" ++ (attestation_type ++ (codes ";" ++ c))))))
        (marshal_conditions conditions)

  -- `SetWithTTL` at cost 1; a dropped write is only logged.
  unfoldable pub set_entry : Cache → Str → Entry Info → Exec (World d) (Unit {0})
  set_entry c key e w = (
    ok tt,
    record w {
      calls = suc w.calls;
      store = (set_with_ttl w.calls w.store key e 1 (to_nat c.ttl)).0;
    },
  )

  unfoldable pub find_entry : Str → Exec (World d) (Option (Entry Info))
  find_entry key w = (ok (get_entry w.calls w.store key), record w { calls = suc w.calls })

  unfoldable pub add_image : Cache → Str → Str → Image Info → Exec (World d) (Unit {0})
  unfolding set_entry
  add_image c trust_policy image_ref result =
      if c.use_cache
      then set_entry c (create_image_key trust_policy image_ref) (image result)
      else pure tt

  -- The type assertion on the value.
  abbrev pub as_image : Option (Entry Info) → Option (Image Info)
  as_image none = none
  as_image (some (image i)) = some i
  as_image (some attestation_verified) = none

  unfoldable pub get_image : Cache → Str → Str → Exec (World d) (Option (Image Info))
  unfolding find_entry
  get_image c trust_policy image_ref =
      if c.use_cache
      then (do entry ← find_entry (create_image_key trust_policy image_ref); pure (as_image entry))
      else pure none

  unfoldable pub add_attestation :
      Cache → Str → Str → Str → List (AnyAllConditions Condition) → Exec (World d) (Unit {0})
  unfolding set_entry
  add_attestation c trust_policy image_ref attestation_type conditions =
      if c.use_cache
      then (do
        key ←
            wrap (λ e. codes "failed to create attestation cache key: " ++ e)
              (lift (create_attestation_key trust_policy image_ref attestation_type conditions))
        set_entry c key attestation_verified)
      else pure tt

  abbrev pub is_found : Option (Entry Info) → Bool
  is_found none = false
  is_found (some e) = true

  unfoldable pub get_attestation :
      Cache → Str → Str → Str → List (AnyAllConditions Condition) → Exec (World d) Bool
  unfolding find_entry
  get_attestation c trust_policy image_ref attestation_type conditions =
      if c.use_cache
      then (elim (create_attestation_key trust_policy image_ref attestation_type conditions) [
        | ok key ↦ (do entry ← find_entry key; pure (is_found entry))
        | err e ↦ pure false
      ])
      else pure false

  unfoldable pub clear_cache : Exec (World d) (Unit {0})
  clear_cache w = (ok tt, record w { store = clear w.store })
