-- ===== src/Auth.antt =====
-- internal/verifier/auth.go: the keychain of a request, and the credentials of a registry.
use notation_aws_verifier.Prelude.{
  Str, codes, ◌++◌, Option, none, some, List, [], ◌∷◌, is_empty, if◌then◌else◌,
}
use notation_aws_verifier.Prelude.Text.Split.{split, trim_space}
use notation_aws_verifier.Prelude.Exec.{Exec, pure, wrap, ◌>>=◌}
use notation_aws_verifier.Config.{VerifierConfig}
use notation_aws_verifier.Deps.{Deps, AuthConfig}
use notation_aws_verifier.World.{World, ask}

module _ (d : Deps) where
  open d use {
    Keychain, Secret, Reference, default_keychain, new_multi_keychain, new_from_pull_secrets,
    get_secret, resolve, authorization, reference_string,
  }

  unfoldable pub fetch_secret : Str → Exec (World d) Secret
  fetch_secret name =
      wrap (λ e. codes "failed to get image pull secret " ++ (name ++ (codes ": " ++ e)))
        (ask d (λ n. get_secret n name))

  -- The loop over the parts of the comma-separated list; blank parts are skipped.
  unfoldable pub get_secrets : List Str → List Secret → Exec (World d) (List Secret)
  get_secrets [] secrets = pure secrets
  get_secrets (part ∷ parts) secrets =
      let name = trim_space part in
      let skipped = get_secrets parts secrets in
      let fetched = (do secret ← fetch_secret name; get_secrets parts (secrets ++ (secret ∷ []))) in
      if is_empty name then skipped else fetched

  unfoldable pub get_keychain_from_secret : VerifierConfig Keychain → Exec (World d) Keychain
  unfolding get_secrets fetch_secret
  get_keychain_from_secret v = do
    secrets ← get_secrets (split v.image_pull_secrets b',') []
    ask d (λ n. new_from_pull_secrets n secrets)

  abbrev pub option_list {ℓ} : {A : Type ℓ} → Option A → List A
  option_list none = []
  option_list (some a) = a ∷ []

  -- The docker config of the process, the pull secrets and the provider's keychain, in this order.
  unfoldable pub get_keychain : VerifierConfig Keychain → Exec (World d) Keychain
  unfolding get_keychain_from_secret
  get_keychain v = do
    secrets ←
        if is_empty v.image_pull_secrets
        then pure []
        else (do k ← get_keychain_from_secret v; pure (k ∷ []))
    pure (new_multi_keychain (default_keychain ∷ (secrets ++ option_list v.provider_keychain)))

  unfoldable pub get_auth_config_from_keychain :
      Keychain → Reference → Exec (World d) (Option AuthConfig)
  get_auth_config_from_keychain keychain ref = do
    authenticator ← ask d (λ n. resolve n keychain ref)
    wrap
        (λ e. codes "failed to get auth config for " ++ (reference_string ref ++ (codes ": " ++ e)))
        (ask d (λ n. authorization n authenticator))
