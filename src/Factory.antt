-- ===== src/Factory.antt =====
-- internal/notationfactory: one notation verifier for each trust policy file.
pub mod Names
pub mod Refresh
use notation_aws_verifier.Prelude.{
  Str, codes, ◌++◌, Option, none, some, [], is_empty, if◌then◌else◌,
}
use notation_aws_verifier.Prelude.Map.{lookup}
use notation_aws_verifier.Prelude.Exec.{Exec, fail}
use notation_aws_verifier.Prelude.Result.{Result, ok, err}
use notation_aws_verifier.Deps.{Deps}
use notation_aws_verifier.World.{World}

module _ (d : Deps) where
  open d use {Verifier, default_trust_policy}

  abbrev pub or_not_found : Str → Option Verifier → Result Verifier
  or_not_found trust_policy none =
      err (codes "no trust policy found for trust policy " ++ trust_policy)
  or_not_found trust_policy (some v) = ok v

  -- The lookup under the read lock.
  unfoldable pub find_verifier : Str → Exec (World d) Verifier
  find_verifier trust_policy w = (or_not_found trust_policy (lookup trust_policy w.verifiers), w)

  -- The trust policy of the request, or the one that the environment names.
  abbrev pub requested : Str → Str
  requested policy = if is_empty policy then default_trust_policy else policy

  unfoldable pub get_verifier : Str → Exec (World d) Verifier
  unfolding find_verifier
  get_verifier request_policy =
      if is_empty (requested request_policy)
      then fail (
          codes "no trust policy specified, please specify a trust policy in request or set "
          ++ codes "DEFAULT_TRUST_POLICY env")
      else find_verifier (requested request_policy)
