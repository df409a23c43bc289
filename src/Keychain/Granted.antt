-- ===== src/Keychain/Granted.antt =====
-- What the credential cache hands out: a credential of the registry that is asked for, and only
-- until it expires.
use notation_aws_verifier.Prelude.{
  Str, ℕ, ◌+◌, ◌<◌, ◌≡◌, ◌⊎◌, sym, ap, inl, inr, refl, ltb, ltb→lt, leb, ◌==◌, ==_iff, Bool-cases,
  true, false, Option, none, some, List, [], ◌∷◌, length, arith, if_both,
}
use notation_aws_verifier.Prelude.Map.{
  Map, keys, lookup, insert, delete, lookup-insert, lookup-delete,
}
use notation_aws_verifier.Prelude.Result.{Result, ok, err}
use notation_aws_verifier.Prelude.Exec.Keeps.{Returns}
use notation_aws_verifier.Deps.{AuthConfig}
use notation_aws_verifier.Keychain.{
  Provider, CachedCredential, max_cached_registries, has_expired, delete_expired, make_room,
  remember, keep_config, keep, resolve_from, resolve,
}

-- `clock` tells the time at which each call of the provider is made.
module _ (p : Provider) (clock : ℕ → ℕ) (ttl : ℕ) where
  -- The provider once gave this credential for a target of the registry, and not anonymously.
  pub record Granted (key : Str) (e : CachedCredential) : Type 0 where
    pub target : p.Target
    pub same_registry : p.registry_str target ≡ key
    pub call : ℕ
    pub authenticator : p.Authenticator
    pub resolved : p.resolve call target ≡ ok authenticator
    pub named : p.is_anonymous authenticator ≡ false
    pub authorized : p.authorization call authenticator ≡ ok e.config
    pub lifetime : e.expires ≡ clock call + ttl

  abbrev pub IsGranted : Map CachedCredential → Type 0
  IsGranted entries =
      (key : Str) (e : CachedCredential) → lookup key entries ≡ some e → Granted key e

  IsGranted-empty : IsGranted []
  unfolding lookup
  IsGranted-empty key e h = absurd (ground arith)

  IsGranted-delete : (k : Str) (m : Map CachedCredential) → IsGranted m → IsGranted (delete k m)
  IsGranted-delete k m g key e h = g key e (ground (arith, lookup-delete k key m))

  IsGranted-insert :
      (k : Str) (x : CachedCredential) (m : Map CachedCredential)
      → Granted k x
      → IsGranted m
      → IsGranted (insert k x m)
  IsGranted-insert k x m new g key e h = elim (Bool-cases (k == key)) [
    | inl same ↦
        let q : k ≡ key = (==_iff k key).0 same in
        let r : x ≡ e = ground (arith, lookup-insert k key x m) in rw (← q, ← r) new
    | inr other ↦ g key e (ground (arith, lookup-insert k key x m))
  ]

  IsGranted-delete_expired :
      (now : ℕ) (rs : List Str) (m : Map CachedCredential)
      → IsGranted m
      → IsGranted (delete_expired now rs m)
  unfolding delete_expired
  IsGranted-delete_expired now [] m g = g
  IsGranted-delete_expired now (r ∷ rs) m g = IsGranted-delete_expired now rs _ (
      if_both IsGranted (has_expired now (lookup r m)) (delete r m) m (λ _. IsGranted-delete r m g)
        (λ _. g))

  IsGranted-make_room :
      (now : ℕ) (m : Map CachedCredential) → IsGranted m → IsGranted (make_room now m)
  unfolding make_room
  IsGranted-make_room now m g =
      let rest = delete_expired now (keys m) m in
      if_both IsGranted (leb max_cached_registries (length m)) _ m
        (λ _.
          if_both IsGranted (leb max_cached_registries (length rest)) [] rest (λ _. IsGranted-empty)
            (λ _. IsGranted-delete_expired now (keys m) m g))
        (λ _. g)

  module _ (now n : ℕ) (target : p.Target) (entries : Map CachedCredential) where
    -- The provider gave this authenticator now, with this credential if it is not anonymous.
    abbrev pub GivenNow : p.Authenticator → Type 0
    GivenNow a =
        (given : p.Authenticator) × (p.resolve n target ≡ ok given)
        × (((p.is_anonymous given ≡ true) × (a ≡ given))
            ⊎ ((p.is_anonymous given ≡ false)
                × (config : AuthConfig) × (p.authorization n given ≡ ok config)
                × (a ≡ p.from_config config)))

    -- The credential that is cached for the registry, which has not expired.
    abbrev pub Cached : p.Authenticator → Type 0
    Cached a =
        (e : CachedCredential) × (lookup (p.registry_str target) entries ≡ some e)
        × Granted (p.registry_str target) e
        × (now < e.expires)
        × (a ≡ p.from_config e.config)

    abbrev pub Justified : p.Authenticator → Type 0
    Justified a = GivenNow a ⊎ Cached a

    abbrev Kept : Result p.Authenticator × Map CachedCredential → Type 0
    Kept r = Returns Justified r.0 × IsGranted r.1

    Kept-keep_config :
        clock n ≡ now
        → IsGranted entries
        → (a : p.Authenticator) → p.resolve n target ≡ ok a
        → p.is_anonymous a ≡ false
        → (r : Result AuthConfig) → p.authorization n a ≡ r
        → Kept (keep_config p ttl now n target entries r)
    unfolding remember
    Kept-keep_config time g a e named (err x) h = (tt, g)
    Kept-keep_config time g a e named (ok config) h =
        let new : Granted (p.registry_str target)
            (record { config = config; expires = now + ttl }) =
          record {
            target = target;
            same_registry = refl;
            call = n;
            authenticator = a;
            resolved = e;
            named = named;
            authorized = h;
            lifetime = ap (λ t. t + ttl) (sym time);
          } in
        (
          inl (a, e, inr (named, config, h, refl)),
          IsGranted-insert _ _ _ new (IsGranted-make_room now entries g),
        )

    Kept-keep :
        clock n ≡ now
        → IsGranted entries
        → (r : Result p.Authenticator) → p.resolve n target ≡ r
        → Kept (keep p ttl now n target entries r)
    Kept-keep time g (err x) e = (tt, g)
    Kept-keep time g (ok a) e =
        if_both Kept (p.is_anonymous a) (ok a, entries) _
          (λ anonymous. (inl (a, e, inl (anonymous, refl)), g))
          (λ named. Kept-keep_config time g a e named (p.authorization n a) refl)

    Kept-resolve_from :
        clock n ≡ now
        → IsGranted entries
        → (o : Option CachedCredential) → lookup (p.registry_str target) entries ≡ o
        → Kept (resolve_from p ttl now n target entries o)
    Kept-resolve_from time g none h = Kept-keep time g (p.resolve n target) refl
    Kept-resolve_from time g (some e) h =
        if_both Kept (ltb now e.expires) (ok (p.from_config e.config), entries) _
          (λ fresh. (inr (e, h, g _ e h, ltb→lt now e.expires fresh, refl), g))
          (λ _. Kept-keep time g (p.resolve n target) refl)

    -- If every cached credential was granted for its registry, and this call is made now, then an
    -- authenticator that `Resolve` returns is the one that the provider just gave for the target,
    -- or made of the credential that is cached for the target's registry and has not expired: it
    -- was granted by a call of the provider less than the time to live ago. Every cached credential
    -- is a granted one afterwards.
    pub resolve_lem :
        clock n ≡ now
        → IsGranted entries
        → Returns Justified (resolve p ttl now n target entries).0
          × IsGranted (resolve p ttl now n target entries).1
    unfolding resolve
    resolve_lem time g = Kept-resolve_from time g (lookup (p.registry_str target) entries) refl
