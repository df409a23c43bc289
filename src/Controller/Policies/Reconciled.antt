-- ===== src/Controller/Policies/Reconciled.antt =====
-- `TrustPolicyReconciler.Reconcile`: what it does to the disk and to the API server.
use notation_aws_verifier.Prelude.{
  Str, true, not, Option, none, some, List, ◌≡◌, ◌⊎◌, inl, inr, refl, ◌∙◌, arith,
}
use notation_aws_verifier.Prelude.Exec.{attempt}
use notation_aws_verifier.Prelude.Exec.Triple.{
  Triple, Outcome-either, Triple-ok, Triple-pure, Triple-map, Triple-if, Triple-bind, Triple-any,
}
use notation_aws_verifier.Prelude.Map.{Map}
use notation_aws_verifier.Prelude.Result.{ok}
use notation_aws_verifier.Disk.{Os, Machine}
use notation_aws_verifier.Disk.Frames.{OsLaws, At}
use notation_aws_verifier.Disk.Tree.{Node}
use notation_aws_verifier.Controller.Cluster.{TrustPolicy, Cluster, query}
use notation_aws_verifier.Controller.Policies.{
  sync_policies, found_or_gone, finalizer, with_meta, before_sync, after_sync, reconcile_policy,
}
use notation_aws_verifier.Controller.Policies.Sync.{IsListed, PoliciesSynced, synced}
use notation_aws_verifier.Controller.Sent.{found_lem, send_changed-files}

module _ (os : Os) (laws : OsLaws os) (c : Cluster os.Object) where
  open c use {Meta}

  prepared_lem :
      (p : TrustPolicy Meta) (sent : List os.Object) (E : Str → Machine os → Type 0)
      → c.is_deleted p.meta ≡ true
      → (found : Option (TrustPolicy Meta))
      → Triple
          (λ s. (found ≡ some p) × (s.sent ≡ sent))
          (before_sync os c found)
          (λ _ s. s.sent ≡ sent)
          E
  prepared_lem p sent E gone none = record { run = λ s (e, same). absurd (ground arith) }
  prepared_lem p sent E gone (some q) =
      Triple-if (not (c.is_deleted q.meta)) _ _
        (λ live. record {
          run = λ s (e, same).
              let e' : q ≡ p = ground arith in
              let gone' : c.is_deleted q.meta ≡ true = rw e' gone in absurd (ground arith);
        })
        (λ _. Triple-pure tt (λ s (e, same). same))

  -- A sync from any state: behind a success the files are right, behind an error nothing was sent.
  Triple-listed :
      (dir : Str) (sent : List os.Object)
      → Triple
          (λ s. s.sent ≡ sent)
          (sync_policies os c dir)
          (λ _ s. IsListed os c dir s.files)
          (λ _ s. s.sent ≡ sent)
  Triple-listed dir sent = record {
    run = λ s h.
        (Triple-map {Q = λ _. PoliciesSynced os c dir s.files s.channel s.sent}
            {E = λ _. At os s.channel s.sent (λ f. Unit)} _ (λ t e. e) (λ a t x. x.listed)
            (λ e t x. x.same_sent ∙ h) (synced os laws c dir s)).run
          s refl;
  }

  Triple-exact :
      (dir : Str)
      → Triple
          (λ _. Unit {0})
          (sync_policies os c dir)
          (λ _ s. IsListed os c dir s.files)
          (λ _ _. Unit)
  Triple-exact dir = record {
    run = λ s h.
        (Triple-map {E = λ _ t. t.sent ≡ s.sent} {F = λ _ _. Unit} _ (λ t e. e) (λ a t x. x)
            (λ e t x. tt) (Triple-listed dir s.sent)).run
          s refl;
  }

  after_sync-files :
      (Q : Map Node → Type 0) (found : Option (TrustPolicy Meta))
      → Triple (λ w. Q w.files) (after_sync os c found) (λ _ w. Q w.files) (λ _ w. Q w.files)
  after_sync-files Q none = Triple-pure tt (λ s h. h)
  after_sync-files Q (some p) =
      Triple-if (c.is_deleted p.meta) _ _
        (λ _.
          send_changed-files os c Q (with_meta os c p) (c.remove_finalizer (finalizer os c) p.meta))
        (λ _. Triple-pure tt (λ s h. h))

  -- When `Reconcile` succeeds, the directory holds exactly the files that the objects of the API
  -- server's list ask for, whatever became of the object that it was called for.
  pub reconcile_policy-IsListed :
      (dir name : Str) (w w' : Machine os)
      → reconcile_policy os c dir name w ≡ (ok tt, w')
      → IsListed os c dir w'.files
  unfolding reconcile_policy
  reconcile_policy-IsListed dir name w w' e = Triple-ok _ whole w w' tt tt e
    where
      whole :
          Triple
            (λ _. Unit)
            (reconcile_policy os c dir name)
            (λ _ s. IsListed os c dir s.files)
            (λ _ _. Unit)
      whole =
          Triple-bind _ _ (Triple-any (attempt (query os c (λ n. c.get_policy n name)))) (λ answer.
            Triple-bind _ _ (Triple-any (found_or_gone os c answer)) (λ found.
              Triple-bind _ _ (Triple-any (before_sync os c found)) (λ _.
                Triple-bind _ _ (Triple-exact dir) (λ _.
                  Triple-map _ (λ s h. h) (λ a s h. h) (λ e s h. tt)
                    (after_sync-files (IsListed os c dir) found)))))

  -- If the object that `Reconcile` is called for is being deleted, then behind it, successful or
  -- not, either nothing was sent to the API server, so that the object keeps its finalizer, or the
  -- directory holds exactly the files that the listed objects ask for.
  pub reconcile_policy-finalizer :
      (dir name : Str) (w : Machine os) (p : TrustPolicy Meta)
      → c.get_policy w.calls name ≡ ok p
      → c.is_deleted p.meta ≡ true
      → ((reconcile_policy os c dir name w).1.sent ≡ w.sent)
        ⊎ IsListed os c dir (reconcile_policy os c dir name w).1.files
  unfolding reconcile_policy query attempt
  reconcile_policy-finalizer dir name w p got gone =
      Outcome-either _ (reconcile_policy os c dir name w).0 _ (whole.run w refl)
    where
      KeptOrListed : Machine os → Type 0
      KeptOrListed s = (s.sent ≡ w.sent) ⊎ IsListed os c dir s.files

      asked :
          Triple
            (λ s. s ≡ w)
            (attempt (query os c (λ n. c.get_policy n name)))
            (λ r s. (r ≡ ok p) × (s.sent ≡ w.sent))
            (λ _. KeptOrListed)
      asked = record { run = λ s e. rw e (got, refl) }

      whole :
          Triple
            (λ s. s ≡ w)
            (reconcile_policy os c dir name)
            (λ _. KeptOrListed)
            (λ _. KeptOrListed)
      whole = Triple-bind _ _ asked (λ answer.
          Triple-bind _ _ (found_lem os c p (λ s. s.sent ≡ w.sent) _ answer) (λ found.
            Triple-bind _ _ (prepared_lem p w.sent _ gone found) (λ _.
              Triple-bind _ _
                (Triple-map _ (λ s h. h) (λ a s h. h) (λ e s h. inl h) (Triple-listed dir w.sent))
                (λ _.
                  Triple-map _ (λ s h. h) (λ a s h. inr h) (λ e s h. inr h)
                    (after_sync-files (IsListed os c dir) found)))))
