-- ===== src/Service.antt =====
-- main.go: the loop of `run`, and the requests that are served while it goes round, one after the
-- other. The channels and the context are the signals that the loop receives.
pub mod Refines
pub mod Started
use notation_aws_verifier.Prelude.{
  Str, codes, ◌++◌, Bool, true, false, Option, none, some, List, [], ◌∷◌, ◌≡◌,
}
use notation_aws_verifier.Prelude.Exec.{Exec, pure, attempt, ◌>>=◌}
use notation_aws_verifier.Prelude.Result.{Result, ok, err}
use notation_aws_verifier.Config.{VerifierConfig}
use notation_aws_verifier.Deps.{Deps}
use notation_aws_verifier.Handler.{HttpRequest, HttpReply, handle_check_images}
use notation_aws_verifier.Handler.Refresh.{update_notation_verifier}
use notation_aws_verifier.World.{World}

-- What `select` receives: a change of the custom resources, the error of a server, the end of the
-- manager, or the end of the context.
pub data Signal : Type 0 where
  crd_changed : Signal
  server_failed : Str → Signal
  manager_stopped : Option Str → Signal
  context_done : Signal

-- The loop goes on, or `run` returns.
pub data Phase : Type 0 where
  serving : Phase
  ended : Option Str → Phase

-- The error of the manager, where it was asked to stop or was not.
unfoldable pub manager_error : Bool → Option Str → Option Str
manager_error shutting_down (some e) = some (codes "problem running manager: " ++ e)
manager_error true none = none
manager_error false none =
    some (codes "problem running manager: " ++ codes "manager stopped unexpectedly")

-- Something happens: a request comes and is answered, or the loop receives a signal, when the
-- context is done or is not.
pub data Event (Info Condition : Type 0) : Type 0 where
  answered : HttpRequest Info Condition → HttpReply → Event Info Condition
  signalled : Bool → Signal → Event Info Condition

module _ (d : Deps) where
  open d use {Info, Condition, Keychain}

  -- One round of the loop; the error of an update is only logged.
  unfoldable pub on_signal : Bool → Signal → Exec (World d) Phase
  unfolding manager_error update_notation_verifier
  on_signal done crd_changed = do updated ← attempt (update_notation_verifier d); pure serving
  on_signal done (server_failed e) = pure (ended (some e))
  on_signal done (manager_stopped e) = pure (ended (manager_error done e))
  on_signal done context_done = pure (ended none)

  module _ (v : VerifierConfig Keychain) where
    pub data Step : Phase × World d → Event Info Condition → Phase × World d → Type 0 where
      request :
          {w w' : World d} {r : HttpRequest Info Condition} {reply : HttpReply}
          → handle_check_images d v r w ≡ (ok reply, w')
          → Step (serving, w) (answered r reply) (serving, w')
      signal :
          {w w' : World d} {done : Bool} {s : Signal} {phase : Phase}
          → on_signal done s w ≡ (ok phase, w')
          → Step (serving, w) (signalled done s) (phase, w')

    pub data Steps : Phase × World d → List (Event Info Condition) → Phase × World d → Type 0 where
      stay : {s : Phase × World d} → Steps s [] s
      more :
          {s t u : Phase × World d} {e : Event Info Condition} {es : List (Event Info Condition)}
          → Step s e t
          → Steps t es u
          → Steps s (e ∷ es) u
