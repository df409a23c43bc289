-- ===== src/Service/Refines.antt =====
-- The service refines a machine that only knows the verifiers in force: what it answers follows
-- from them and the request, and they change only to what was read from the disk.
use notation_aws_verifier.Prelude.{
  Str, eqb, eqb_iff, Bool, Bool-cases, true, false, Option, none, some, List, [], ◌∷◌, ◌≡◌, ◌≢◌,
  refl, sym, ap, subst, ◌⊎◌, inl, inr, arith,
}
use notation_aws_verifier.Prelude.Exec.{attempt, continue, ◌>>=◌}
use notation_aws_verifier.Prelude.Exec.Triple.{Outcome, Triple-ok}
use notation_aws_verifier.Prelude.Map.{Map}
use notation_aws_verifier.Prelude.Result.{Result, ok, err}
use notation_aws_verifier.Cache.{clear_cache}
use notation_aws_verifier.Config.{VerifierConfig}
use notation_aws_verifier.Deps.{Deps, RistrettoLaws, RangeLaws, KyvernoLaws}
use notation_aws_verifier.Factory.Names.{PlainFiles, read_verifiers-PlainNames}
use notation_aws_verifier.Factory.Refresh.{read_verifiers, refresh_verifiers, set_verifiers}
use notation_aws_verifier.Handler.{HttpRequest, HttpReply, handle_check_images}
use notation_aws_verifier.Handler.Checked.{Passed}
use notation_aws_verifier.Handler.Refresh.{
  update_notation_verifier, update_notation_verifier-err, update_notation_verifier-IsSound,
}
use notation_aws_verifier.Handler.Served.{handle_check_images_lem, handle_check_images-IsSound}
use notation_aws_verifier.Service.{
  Signal, crd_changed, server_failed, manager_stopped, context_done, Phase, serving, ended,
  manager_error, Event, answered, signalled, on_signal, Step, request, signal, Steps, stay, more,
}
use notation_aws_verifier.Verify.Sound.References.{Sound, PlainNames}
use notation_aws_verifier.World.{World}

module _ (d : Deps) (laws : RistrettoLaws d.ristretto) (fair : RangeLaws d)
    (kl : KyvernoLaws d.kyverno) (v : VerifierConfig d.Keychain) where
  open d use {Info, Condition, Verifier}

  -- What the files of the disk gave at some time: verifiers, or an error.
  abbrev pub WasRead : Result (Map Verifier) → Type 0
  WasRead r = (w : World d) × ((read_verifiers d w).0 ≡ r)

  -- The abstract machine.
  pub data SpecStep
      : Phase × Map Verifier → Event Info Condition → Phase × Map Verifier → Type 0 where
    refused :
        {vs : Map Verifier} {r : HttpRequest Info Condition} {reply : HttpReply}
        → reply.status ≢ 200
        → SpecStep (serving, vs) (answered r reply) (serving, vs)
    passed :
        {vs : Map Verifier} {r : HttpRequest Info Condition} {reply : HttpReply}
        (names : PlainNames vs)
        → reply.status ≡ 200
        → Passed d laws fair kl vs names v r reply.text
        → SpecStep (serving, vs) (answered r reply) (serving, vs)
    kept :
        {vs : Map Verifier} {done : Bool} (e : Str)
        → WasRead (err e)
        → SpecStep (serving, vs) (signalled done crd_changed) (serving, vs)
    replaced :
        {vs vs' : Map Verifier} {done : Bool}
        → WasRead (ok vs')
        → SpecStep (serving, vs) (signalled done crd_changed) (serving, vs')
    stopped :
        {vs : Map Verifier} {done : Bool} {s : Signal} {e : Option Str}
        → s ≢ crd_changed
        → (e ≡ none → (done ≡ true) ⊎ (s ≡ context_done))
        → SpecStep (serving, vs) (signalled done s) (ended e, vs)

  pub data SpecSteps
      : Phase × Map Verifier → List (Event Info Condition) → Phase × Map Verifier → Type 0 where
    spec_stay : {s : Phase × Map Verifier} → SpecSteps s [] s
    spec_more :
        {s t u : Phase × Map Verifier} {e : Event Info Condition} {es : List (Event Info Condition)}
        → SpecStep s e t
        → SpecSteps t es u
        → SpecSteps s (e ∷ es) u

  abbrev pub abstract : Phase × World d → Phase × Map Verifier
  abstract (phase, w) = (phase, w.verifiers)

  -- What a step needs of the state, and leaves so.
  pub record IsReady (w : World d) : Type 0 where
    pub sound : Sound d laws w.verifiers w
    pub names : PlainNames w.verifiers

  abbrev Update : Result (Map Verifier) → World d → Result (Unit {0}) × World d
  Update r w = let (o, w') = continue r (set_verifiers d) w in continue o (λ _. clear_cache d) w'

  -- The verifiers after an update, failed or not.
  abbrev Outcomes : Result (Map Verifier) → Result (Unit {0}) × World d → Type 0
  Outcomes r (o, w) = ((r ≡ ok w.verifiers) × (o ≡ ok tt)) ⊎ ((e : Str) × (r ≡ err e) × (o ≡ err e))

  update-cases : (w : World d) → Outcomes (read_verifiers d w).0 (update_notation_verifier d w)
  unfolding update_notation_verifier refresh_verifiers ◌>>=◌ clear_cache
  update-cases w = go (read_verifiers d w).0 (read_verifiers d w).1
    where
      go : (r : Result (Map Verifier)) (w' : World d) → Outcomes r (Update r w')
      go (ok vs) w' = inl (refl, refl)
      go (err e) w' = inr (e, refl, refl)

  update-IsReady :
      (w : World d) → PlainFiles d → IsReady w → IsReady (update_notation_verifier d w).1
  update-IsReady w plain ready = record {
    sound = update_notation_verifier-IsSound d laws w ready.sound;
    names = elim (update-cases w) [
      | inl (e, _) ↦
          Triple-ok _ (read_verifiers-PlainNames d plain) w (read_verifiers d w).1 _ tt
            (ap (λ r. (r, (read_verifiers d w).1)) e)
      | inr (e, _, failed) ↦
          subst PlainNames (sym (update_notation_verifier-err d w e failed).0) ready.names
    ];
  }

  update_step :
      (done : Bool) (w : World d)
      → SpecStep
          (serving, w.verifiers)
          (signalled done crd_changed)
          (serving, (update_notation_verifier d w).1.verifiers)
  update_step done w = elim (update-cases w) [
    | inl (e, _) ↦ replaced (w, e)
    | inr (e, p, failed) ↦ rw (update_notation_verifier-err d w e failed).0 (kept e (w, p))
  ]

  -- The step of the abstract machine for one step of the service, which is as ready as before.
  abbrev Stepped : World d → Event Info Condition → Phase → World d → Type 0
  Stepped w e phase w' = SpecStep (serving, w.verifiers) e (phase, w'.verifiers) × IsReady w'

  manager_error-none : (done : Bool) (e : Option Str) → manager_error done e ≡ none → done ≡ true
  unfolding manager_error
  manager_error-none true e h = refl
  manager_error-none false none h = absurd (ground arith)
  manager_error-none false (some e) h = absurd (ground arith)

  on_signal-Stepped :
      (done : Bool) (s : Signal) (w : World d)
      → PlainFiles d
      → IsReady w
      → Outcome
          (Stepped w (signalled done s))
          (λ _ _. Unit)
          (on_signal d done s w).0
          (on_signal d done s w).1
  unfolding on_signal ◌>>=◌ attempt
  on_signal-Stepped done crd_changed w plain ready =
      (update_step done w, update-IsReady w plain ready)
  on_signal-Stepped done (server_failed e) w plain ready =
      (stopped (λ h. ground arith) (λ h. absurd (ground arith)), ready)
  on_signal-Stepped done (manager_stopped e) w plain ready =
      (stopped (λ h. ground arith) (λ h. inl (manager_error-none done e h)), ready)
  on_signal-Stepped done context_done w plain ready =
      (stopped (λ h. ground arith) (λ h. inr refl), ready)

  -- A request, by the status of its reply.
  handle_check_images-Stepped :
      (r : HttpRequest Info Condition) (w w' : World d) (reply : HttpReply)
      → IsReady w
      → handle_check_images d v r w ≡ (ok reply, w')
      → Stepped w (answered r reply) serving w'
  handle_check_images-Stepped r w w' reply ready h =
      let vs : Map Verifier = w.verifiers in
      let next : Sound d laws vs w' =
        subst (λ x. Sound d laws vs x.1) h
          (handle_check_images-IsSound d laws fair kl vs ready.names v r w ready.sound) in
      (
        subst (λ u. SpecStep (serving, vs) (answered r reply) (serving, u)) (sym next.same)
            (elim (Bool-cases (eqb reply.status 200)) [
              | inl same ↦
                  let is_200 : reply.status ≡ 200 = (eqb_iff reply.status 200).0 same in
                  passed ready.names is_200 (
                    handle_check_images_lem d laws fair kl vs ready.names v r w ready.sound reply
                      (ap (λ x. x.0) h) is_200)
              | inr other ↦ refused (λ is_200. ground (arith, eqb_iff reply.status 200))
            ]),
        record {
          sound = subst (λ u. Sound d laws u w') (sym next.same) next;
          names = subst PlainNames (sym next.same) ready.names;
        },
      )

  Step-Stepped :
      (s t : Phase × World d) (e : Event Info Condition)
      → PlainFiles d
      → IsReady s.1
      → Step d v s e t
      → SpecStep (abstract s) e (abstract t) × IsReady t.1
  Step-Stepped s t e plain ready (request {w = w} {w'} {r} {reply} h) =
      handle_check_images-Stepped r w w' reply ready h
  Step-Stepped s t e plain ready (signal {w = w} {w'} {done} {s = x} {phase} h) =
      subst
        (λ (o : Result Phase × World d).
          Outcome (Stepped w (signalled done x)) (λ _ _. Unit) o.0 o.1)
        h (on_signal-Stepped done x w plain ready)

  -- Every run of the service is a run of the abstract machine.
  pub Steps-SpecSteps :
      (s t : Phase × World d) (es : List (Event Info Condition))
      → PlainFiles d
      → IsReady s.1
      → Steps d v s es t
      → SpecSteps (abstract s) es (abstract t) × IsReady t.1
  Steps-SpecSteps s t es plain ready stay = (spec_stay, ready)
  Steps-SpecSteps s t es plain ready (more {t = m} {e = e} {es = rest} one steps) =
      let (spec, then) = Step-Stepped s m e plain ready one in
      let (specs, last) = Steps-SpecSteps m t rest plain then steps in (spec_more spec specs, last)
