-- ===== src/Controller/Sent.antt =====
-- What `Reconcile` does around its sync: the question for the object, and the object that is sent.
use notation_aws_verifier.Prelude.{Str, Bool, true, false, some, ◌≡◌, arith}
use notation_aws_verifier.Prelude.Exec.Triple.{Triple, Outcome, Triple-pure}
use notation_aws_verifier.Prelude.Map.{Map}
use notation_aws_verifier.Prelude.Result.{Result, ok, err}
use notation_aws_verifier.Disk.{Os, Machine}
use notation_aws_verifier.Disk.Tree.{Node}
use notation_aws_verifier.Controller.Cluster.{Cluster, update_object}
use notation_aws_verifier.Controller.Policies.{found_or_gone, send_changed}

module _ (os : Os) (c : Cluster os.Object) where
  open c use {Meta}

  -- The object that was asked for is found, and the state is as it was.
  pub found_lem :
      {A : Type 0} (p : A) (P : Machine os → Type 0) (E : Str → Machine os → Type 0) (r : Result A)
      → Triple (λ s. (r ≡ ok p) × P s) (found_or_gone os c r) (λ found s. (found ≡ some p) × P s) E
  found_lem p P E (ok q) = Triple-pure (some q) (λ s (e, same). (ground arith, same))
  found_lem p P E (err x) = record { run = λ s (e, same). absurd (ground arith) }

  pub send_changed-files :
      (Q : Map Node → Type 0) (object : Meta → os.Object) (change : Meta × Bool)
      → Triple
          (λ w. Q w.files)
          (send_changed os c object change)
          (λ _ w. Q w.files)
          (λ _ w. Q w.files)
  send_changed-files Q object (meta, true) =
      unfold update_object in record { run = λ w h. by (c.update w.calls (object meta)) _ h }
    where
      by :
          (r : Result (Unit {0})) (w : Machine os)
          → Q w.files
          → Outcome (λ _ w. Q w.files) (λ _ w. Q w.files) r w
      by (ok u) w h = h
      by (err e) w h = h
  send_changed-files Q object (meta, false) = Triple-pure tt (λ s h. h)
