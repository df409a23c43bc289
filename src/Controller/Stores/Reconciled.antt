-- ===== src/Controller/Stores/Reconciled.antt =====
-- `TrustStoreReconciler.Reconcile`: when the finalizer of a trust store is removed.
use notation_aws_verifier.Prelude.{
  Str, true, not, Option, none, some, List, ◌≡◌, ◌⊎◌, inl, inr, refl, ◌∙◌, arith,
}
use notation_aws_verifier.Prelude.Exec.{attempt}
use notation_aws_verifier.Prelude.Exec.Triple.{
  Triple, Outcome-either, Triple-pure, Triple-map, Triple-if, Triple-bind,
}
use notation_aws_verifier.Prelude.Map.{Map}
use notation_aws_verifier.Prelude.Result.{ok}
use notation_aws_verifier.Disk.{Os, Machine}
use notation_aws_verifier.Disk.Frames.{OsLaws, At}
use notation_aws_verifier.Disk.Tree.{Node}
use notation_aws_verifier.Controller.Cluster.{TrustStore, Cluster, query}
use notation_aws_verifier.Controller.Policies.{finalizer}
use notation_aws_verifier.Controller.Sent.{found_lem, send_changed-files}
use notation_aws_verifier.Controller.Stores.Defs.{
  with_store_meta, before_store_sync, after_store_sync, sync_stores, reconcile_store,
}
use notation_aws_verifier.Controller.Stores.Synced.{IsGrounded}
use notation_aws_verifier.Controller.Stores.Sync.{root_of, IsListed, StoresSynced, stores_synced}

module _ (os : Os) (laws : OsLaws os) (c : Cluster os.Object) (dir : Str) where
  open c use {Meta}

  -- Nothing was sent yet, and the disk is as a sync expects it.
  abbrev Ready : List os.Object → Machine os → Type 0
  Ready sent s = (s.sent ≡ sent) × IsGrounded (root_of os c dir) s.files

  prepared_lem :
      (p : TrustStore Meta) (sent : List os.Object) (E : Str → Machine os → Type 0)
      → c.is_deleted p.meta ≡ true
      → (found : Option (TrustStore Meta))
      → Triple
          (λ s. (found ≡ some p) × Ready sent s)
          (before_store_sync os c found)
          (λ _. Ready sent)
          E
  prepared_lem p sent E gone none = record { run = λ s (e, same). absurd (ground arith) }
  prepared_lem p sent E gone (some q) =
      Triple-if (not (c.is_deleted q.meta)) _ _
        (λ live. record {
          run = λ s (e, same).
              let e' : q ≡ p = ground arith in
              let gone' : c.is_deleted q.meta ≡ true = rw e' gone in absurd (ground arith);
        })
        (λ _. Triple-pure tt (λ s (e, same). same))

  after_store_sync-files :
      (Q : Map Node → Type 0) (found : Option (TrustStore Meta))
      → Triple (λ w. Q w.files) (after_store_sync os c found) (λ _ w. Q w.files) (λ _ w. Q w.files)
  after_store_sync-files Q none = Triple-pure tt (λ s h. h)
  after_store_sync-files Q (some p) =
      Triple-if (c.is_deleted p.meta) _ _
        (λ _.
          send_changed-files os c Q (with_store_meta os c p)
            (c.remove_finalizer (finalizer os c) p.meta))
        (λ _. Triple-pure tt (λ s h. h))

  Triple-listed :
      (sent : List os.Object)
      → Triple
          (Ready sent)
          (sync_stores os c dir)
          (λ _ s. IsListed os c dir s.files)
          (λ _ s. s.sent ≡ sent)
  Triple-listed sent = record {
    run = λ s h.
        (Triple-map {Q = λ _. StoresSynced os c dir s.files s.channel s.sent}
            {E = λ _. At os s.channel s.sent (λ f. Unit)} _ (λ t e. e) (λ a t x. x.listed)
            (λ e t x. x.same_sent ∙ h.0) (stores_synced os laws c dir s h.1)).run
          s refl;
  }

  -- If the object that `Reconcile` is called for is being deleted, and the bundles on the disk lie in
  -- directories, then behind it, successful or not, either nothing was sent to the API server, so
  -- that the object keeps its finalizer, or the bundles on the disk are exactly those that the
  -- listed objects ask for.
  pub reconcile_store-finalizer :
      (name : Str) (w : Machine os) (p : TrustStore Meta)
      → IsGrounded (root_of os c dir) w.files
      → c.get_store w.calls name ≡ ok p
      → c.is_deleted p.meta ≡ true
      → ((reconcile_store os c dir name w).1.sent ≡ w.sent)
        ⊎ IsListed os c dir (reconcile_store os c dir name w).1.files
  unfolding reconcile_store query attempt
  reconcile_store-finalizer name w p grounded got gone =
      Outcome-either _ (reconcile_store os c dir name w).0 _ (whole.run w refl)
    where
      KeptOrListed : Machine os → Type 0
      KeptOrListed s = (s.sent ≡ w.sent) ⊎ IsListed os c dir s.files

      asked :
          Triple
            (λ s. s ≡ w)
            (attempt (query os c (λ n. c.get_store n name)))
            (λ r s. (r ≡ ok p) × Ready w.sent s)
            (λ _. KeptOrListed)
      asked = record { run = λ s e. rw e (got, (refl, grounded)) }

      whole :
          Triple
            (λ s. s ≡ w)
            (reconcile_store os c dir name)
            (λ _. KeptOrListed)
            (λ _. KeptOrListed)
      whole = Triple-bind _ _ asked (λ answer.
          Triple-bind _ _ (found_lem os c p (Ready w.sent) _ answer) (λ found.
            Triple-bind _ _ (prepared_lem p w.sent _ gone found) (λ _.
              Triple-bind _ _
                (Triple-map _ (λ s h. h) (λ a s h. h) (λ e s h. inl h) (Triple-listed w.sent))
                (λ _.
                  Triple-map _ (λ s h. h) (λ a s h. inr h) (λ e s h. inr h)
                    (after_store_sync-files (IsListed os c dir) found)))))
