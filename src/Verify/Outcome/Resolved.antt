-- ===== src/Verify/Outcome/Resolved.antt =====
-- What is resolved once for a request: the verifier of its trust policy, and the credentials.
use notation_aws_verifier.Prelude.{
  Str, ◌++◌, Option, none, some, List, [], ◌∷◌, ◌≡◌, refl, is_empty,
}
use notation_aws_verifier.Prelude.Map.{Map, lookup}
use notation_aws_verifier.Deps.{Deps, RistrettoLaws}
use notation_aws_verifier.Verify.Evidence.{Under}
use notation_aws_verifier.Verify.Sound.Attestations.{P, Keeps-range}
use notation_aws_verifier.Prelude.Exec.{pure, ◌>>=◌}
use notation_aws_verifier.Prelude.Exec.Keeps.{Keeps, Keeps-pure, Keeps-wrap, Keeps-if, Keeps-bind}
use notation_aws_verifier.Deps.{RangeLaws}
use notation_aws_verifier.Verify.{new_request_verifier}
use notation_aws_verifier.Auth.{fetch_secret, get_secrets, get_keychain_from_secret, get_keychain}
use notation_aws_verifier.Config.{VerifierConfig}
use notation_aws_verifier.Factory.{find_verifier, requested, get_verifier, or_not_found}
use notation_aws_verifier.Verify.Registry.{get_plugin_config, copy_config_map, get_remote_opts}
use notation_aws_verifier.Prelude.Text.Split.{split, trim_space}
use notation_aws_verifier.Prelude.Exec.Keeps.{Returns, Keeps-fail, Keeps-forget}
use notation_aws_verifier.References.{get_trust_policy}
use notation_aws_verifier.Verify.Sound.Attestations.{Keeps-asked}
use notation_aws_verifier.World.{World}

module _ (d : Deps) (laws : RistrettoLaws d.ristretto) (fair : RangeLaws d)
    (vs : Map d.Verifier) where
  open d use {Keychain}

  Keeps-get_secrets :
      (parts : List Str) (secrets : List d.Secret)
      → Keeps (P d laws vs) (get_secrets d parts secrets) (λ _. Unit)
  unfolding get_secrets
  Keeps-get_secrets [] secrets = Keeps-pure secrets tt
  Keeps-get_secrets (part ∷ parts) secrets =
      Keeps-if (is_empty (trim_space part)) (get_secrets d parts secrets)
        (fetch_secret d (trim_space part) >>= λ secret.
          get_secrets d parts (secrets ++ secret ∷ []))
        (λ _. Unit) (λ _. Keeps-get_secrets parts secrets)
        (λ _.
          Keeps-bind {Q = λ _. Unit} (fetch_secret d (trim_space part)) _
            (unfold fetch_secret in
              Keeps-forget _ _
                (Keeps-wrap _ _ _ (Keeps-asked d laws vs (λ n. d.get_secret n (trim_space part)))))
            (λ secret _. Keeps-get_secrets parts (secrets ++ secret ∷ [])))

  Keeps-get_keychain_from_secret :
      (v : VerifierConfig Keychain) → Keeps (P d laws vs) (get_keychain_from_secret d v) (λ _. Unit)
  unfolding get_keychain_from_secret
  Keeps-get_keychain_from_secret v =
      Keeps-bind _ _ (Keeps-get_secrets (split v.image_pull_secrets b',') []) (λ secrets _.
        Keeps-forget _ _ (Keeps-asked d laws vs (λ n. d.new_from_pull_secrets n secrets)))

  Keeps-get_keychain :
      (v : VerifierConfig Keychain) → Keeps (P d laws vs) (get_keychain d v) (λ _. Unit)
  unfolding get_keychain
  Keeps-get_keychain v =
      Keeps-bind {Q = λ _. Unit} _ _
        (Keeps-if (is_empty v.image_pull_secrets) (pure [])
          (get_keychain_from_secret d v >>= λ k. pure (k ∷ [])) (λ _. Unit) (λ _. Keeps-pure _ tt)
          (λ _. Keeps-bind _ _ (Keeps-get_keychain_from_secret v) (λ k _. Keeps-pure _ tt)))
        (λ secrets _. Keeps-pure _ tt)

  Keeps-copy_config_map : (name : Str) → Keeps (P d laws vs) (copy_config_map d name) (λ _. Unit)
  unfolding copy_config_map
  Keeps-copy_config_map name =
      Keeps-bind _ _ (Keeps-wrap _ _ _ (Keeps-asked d laws vs (λ n. d.get_config_map n name)))
        (λ cm _. Keeps-bind _ _ (Keeps-range d laws vs fair cm) (λ entries _. Keeps-pure _ tt))

  Keeps-get_plugin_config :
      (v : VerifierConfig Keychain) → Keeps (P d laws vs) (get_plugin_config d v) (λ _. Unit)
  unfolding get_plugin_config
  Keeps-get_plugin_config v =
      Keeps-bind {Q = λ _. Unit} _ _
        (Keeps-if (is_empty v.plugin_config_map) (pure []) (copy_config_map d v.plugin_config_map)
          (λ _. Unit) (λ _. Keeps-pure _ tt) (λ _. Keeps-copy_config_map v.plugin_config_map))
        (λ m _. Keeps-pure _ tt)

  found_under :
      (policy : Str) (w : World d)
      → P d laws vs w
      → (o : Option d.Verifier) → lookup policy w.verifiers ≡ o
      → Returns (λ nv. lookup policy vs ≡ some nv) (or_not_found d policy o)
  found_under policy w h none e = tt
  found_under policy w h (some nv) e = rw h.same at e

  Keeps-find_verifier :
      (policy : Str)
      → Keeps (P d laws vs) (find_verifier d policy) (λ nv. lookup policy vs ≡ some nv)
  unfolding find_verifier
  Keeps-find_verifier policy = record {
    at = λ w h. h;
    returns = λ w h. found_under policy w h (lookup policy w.verifiers) refl;
  }

  Keeps-get_verifier :
      (policy : Str)
      → Keeps
          (P d laws vs)
          (get_verifier d policy)
          (λ nv. lookup (get_trust_policy d policy) vs ≡ some nv)
  unfolding get_verifier get_trust_policy
  Keeps-get_verifier policy =
      Keeps-if (is_empty (requested d policy)) _ (find_verifier d (requested d policy)) _
        (λ _. Keeps-fail _ _) (λ _. Keeps-find_verifier (requested d policy))

  Keeps-get_remote_opts :
      (keychain : Keychain) → Keeps (P d laws vs) (get_remote_opts d keychain) (λ _. Unit)
  unfolding get_remote_opts
  Keeps-get_remote_opts keychain =
      Keeps-forget _ _ (Keeps-asked d laws vs (λ n. d.new_puller n keychain))

  -- The request is verified with the verifier that its trust policy has.
  pub Keeps-new_request_verifier :
      (v : VerifierConfig Keychain) (policy : Str)
      → Keeps
          (P d laws vs)
          (new_request_verifier d v policy)
          (λ rv. (rv.trust_policy ≡ get_trust_policy d policy) × Under d vs rv.trust_policy rv)
  unfolding new_request_verifier
  Keeps-new_request_verifier v policy =
      Keeps-bind _ _ (Keeps-wrap _ _ _ (Keeps-get_verifier policy)) (λ nv current.
        Keeps-bind _ _ (Keeps-wrap _ _ _ (Keeps-get_keychain v)) (λ keychain _.
          Keeps-bind _ _ (Keeps-wrap _ _ _ (Keeps-get_remote_opts keychain)) (λ puller _.
            Keeps-bind _ _ (Keeps-get_plugin_config v) (λ plugin_config _.
              Keeps-pure _ (refl, record { policy = refl; current = current })))))
