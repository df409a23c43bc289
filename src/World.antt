-- ===== src/World.antt =====
-- The state that the handlers of the verifier share: the verification cache, the notation
-- verifiers by trust policy, and how many calls have left the process.
use notation_aws_verifier.Prelude.{ℕ, suc}
use notation_aws_verifier.Prelude.Exec.{Exec, Result}
use notation_aws_verifier.Prelude.Map.{Map}
use notation_aws_verifier.Deps.{Deps}

pub record World (d : Deps) : Type 0 where
  pub calls : ℕ
  pub store : d.Store
  pub verifiers : Map d.Verifier

module _ (d : Deps) where
  -- A call that leaves the process.
  unfoldable pub ask : {A : Type 0} → (ℕ → Result A) → Exec (World d) A
  ask f w = (f w.calls, record w { calls = suc w.calls })
