-- ===== src/Verify/Registry.antt =====
-- The registry side of internal/verifier/verify.go: what is resolved once for a request, the
-- client of a registry, and the digest behind a reference.
use notation_aws_verifier.Prelude.{
  Str, codes, ◌==◌, ◌++◌, not, ◌&&◌, Option, none, some, [], ◌∷◌, is_empty, if◌then◌else◌,
}
use notation_aws_verifier.Prelude.Map.{Map, insert, entries_at, keys}
use notation_aws_verifier.Prelude.Exec.{Exec, pure, fail, lift, wrap, ◌>>=◌}
use notation_aws_verifier.Prelude.Result.{ok}
use notation_aws_verifier.Auth.{get_auth_config_from_keychain}
use notation_aws_verifier.Config.{VerifierConfig}
use notation_aws_verifier.Deps.{Deps, AuthConfig, AuthClient}
use notation_aws_verifier.References.{complete_reference, is_digest_reference}
use notation_aws_verifier.World.{World, ask}

-- `requestVerifier`; the remote options are the keychain and the puller.
pub record RequestVerifier (d : Deps) : Type 0 where
  pub verifier : VerifierConfig d.Keychain
  pub notation_verifier : d.Verifier
  pub trust_policy : Str
  pub keychain : d.Keychain
  pub puller : d.Puller
  pub plugin_config : Map Str

module _ (d : Deps) where
  open d use {
    Keychain, Puller, Reference, Repository, get_config_map, new_puller, registry_of,
    reference_string, with_reference, parse_registry_reference, new_repository, set_client,
    parse_name, is_digest, identifier, get, range_order,
  }

  -- The entries of a map in the order that this `range` takes.
  unfoldable pub range : {V : Type 0} → Map V → Exec (World d) (Map V)
  range m = ask d (λ n. ok (entries_at (range_order n (keys m)) m))

  unfoldable pub insert_all : Map Str → Map Str → Map Str
  insert_all [] m = m
  insert_all ((k, v) ∷ rest) m = insert_all rest (insert k v m)

  -- The entries of the config map, copied into a fresh map.
  unfoldable pub copy_config_map : Str → Exec (World d) (Map Str)
  unfolding insert_all range
  copy_config_map name = do
    cm ←
        wrap (λ e. codes "failed to fetch plugin configmap " ++ (name ++ (codes ": " ++ e)))
          (ask d (λ n. get_config_map n name))
    entries ← range cm
    pure (insert_all entries [])

  unfoldable pub get_plugin_config : VerifierConfig Keychain → Exec (World d) (Map Str)
  unfolding copy_config_map
  get_plugin_config v = do
    from_map ← if is_empty v.plugin_config_map then pure [] else copy_config_map v.plugin_config_map
    pure (if v.debug then insert (codes "debug") (codes "true") from_map else from_map)

  unfoldable pub get_remote_opts : Keychain → Exec (World d) Puller
  get_remote_opts keychain = ask d (λ n. new_puller n keychain)

  -- docker's identity token is a refresh token, its registry token an access token.
  unfoldable pub auth_client : Reference → Option AuthConfig → Option AuthClient
  auth_client ref none = none
  auth_client ref (some c) = some (record {
    registry = registry_of ref;
    credential = record {
      username = c.username;
      password = c.password;
      refresh_token = c.identity_token;
      access_token = c.registry_token;
    };
    client_id = codes "notation";
    user_agent = codes "kyverno.io";
  })

  module _ (rv : RequestVerifier d) where
    unfoldable pub get_auth_client : Reference → Exec (World d) (Option AuthClient)
    unfolding auth_client get_auth_config_from_keychain
    get_auth_client ref = do
      config ← get_auth_config_from_keychain d rv.keychain ref
      pure (auth_client ref config)

    unfoldable pub get_digest : Str → Exec (World d) Str
    get_digest image_ref = do
      parsed ←
          wrap
            (λ e.
              codes "failed to parse image reference: " ++ (image_ref ++ (codes ", error: " ++ e)))
            (lift (parse_name image_ref))
      (digest, manifest) ←
          wrap
            (λ e.
              codes "failed to fetch image reference: " ++ (image_ref ++ (codes ", error: " ++ e)))
            (ask d (λ n. get n rv.keychain rv.puller parsed))
      if is_digest parsed && not (identifier parsed == digest)
          then fail (
              codes "digest mismatch, expected: "
              ++ (identifier parsed ++ (codes ", received: " ++ digest)))
          else pure digest

    -- A reference with a digest stays; a tag is replaced by the digest that it names.
    unfoldable pub resolve_digest : Reference → Exec (World d) Reference
    unfolding get_digest
    resolve_digest ref =
        if is_digest_reference (reference_string ref)
        then pure ref
        else (do digest ← get_digest (reference_string ref); pure (with_reference ref digest))

    abbrev pub with_client : Repository → Option AuthClient → Repository
    with_client repo none = repo
    with_client repo (some client) = set_client repo client

    unfoldable pub parse_reference_and_resolve_digest :
        Str → Exec (World d) (Repository × Reference)
    unfolding get_auth_client resolve_digest
    parse_reference_and_resolve_digest image = do
      let ref = complete_reference image
      parsed ←
          wrap (λ e. codes "failed to parse reference " ++ (ref ++ (codes ": " ++ e)))
            (lift (parse_registry_reference ref))
      client ← wrap (λ e. codes "failed to retrieve credentials: " ++ e) (get_auth_client parsed)
      repo ← wrap (λ e. codes "failed to initialize repository: " ++ e) (lift (new_repository ref))
      resolved ← wrap (λ e. codes "failed to resolve digest: " ++ e) (resolve_digest parsed)
      pure (with_client repo client, resolved)
