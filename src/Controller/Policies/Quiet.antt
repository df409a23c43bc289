-- ===== src/Controller/Policies/Quiet.antt =====
-- `TrustPolicyReconciler.sync` at a directory that already holds what it is to hold.
use notation_aws_verifier.Prelude.{Str, false, List, [], ◌≡◌, refl, arith}
use notation_aws_verifier.Prelude.Exec.Triple.{
  Triple, Triple-ok, Triple-pure, Triple-map, Triple-wrap, Triple-bind,
}
use notation_aws_verifier.Prelude.Map.{Map, NodupKeys}
use notation_aws_verifier.Prelude.Result.{ok}
use notation_aws_verifier.Disk.{Os, Machine, System}
use notation_aws_verifier.Disk.Frames.{OsLaws, At, Does, Does-assume}
use notation_aws_verifier.Controller.Cluster.{TrustPolicy, Cluster, query}
use notation_aws_verifier.Controller.Policies.{
  desired_policies, sync_trust_policy_files, sync_policies,
}
use notation_aws_verifier.Controller.Policies.Exact.{SameFiles, IsExact}
use notation_aws_verifier.Controller.Policies.Idle.{Does-sync_idle}
use notation_aws_verifier.Controller.Policies.Sync.{Does-lift}
use notation_aws_verifier.Controller.Policies.Wanted.{desired_policies-IsPolicyFile}

module _ (os : Os) (laws : OsLaws os) (c : Cluster os.Object) (dir : Str) (w : Machine os) where
  open c use {Meta}

  -- The disk is not changed, and nobody is told.
  abbrev IsQuiet : Machine os → Type 0
  IsQuiet = At os w.channel w.sent (SameFiles w.files)

  module _ (objects : List (TrustPolicy Meta)) (desired : Map Str)
      (turned : desired_policies os c objects [] ≡ ok desired) (once : NodupKeys w.files)
      (exact : IsExact dir desired w.files) where
    quiet_files :
        Does os w.channel w.sent
          (λ f. f ≡ w.files)
          (sync_trust_policy_files os dir desired)
          (λ b f. (b ≡ false) × SameFiles w.files f)
          (λ f. Unit)
    quiet_files =
        Does-sync_idle os laws w.channel w.sent dir desired
          (desired_policies-IsPolicyFile os c objects desired turned) w.files once exact

    listed :
        c.list_policies w.calls ≡ ok objects
        → Triple
            (λ s. s ≡ w)
            (query os c c.list_policies)
            (λ l. At os w.channel w.sent (λ f. (l ≡ objects) × (f ≡ w.files)))
            (λ _ s. Unit)
    unfolding query
    listed answered = record {
      run = λ s e.
          rw (e, answered) (record { files = (refl, refl); same_channel = refl; same_sent = refl });
    }

    quiet :
        (answered : c.list_policies w.calls ≡ ok objects)
        → Triple (λ s. s ≡ w) (sync_policies os c dir) (λ _. IsQuiet) (λ _ s. Unit)
    unfolding sync_policies
    quiet answered = Triple-bind _ _ (Triple-wrap _ _ _ _ (listed answered)) (λ list.
        Does-assume os w.channel w.sent _ (λ same. rw same (
          Triple-bind _ _
            (forget (
              Does-lift os laws c w.channel w.sent (λ f. f ≡ w.files)
                (desired_policies os c objects [])))
            (λ wanted. Does-assume os w.channel w.sent _ (λ e.
              let p : wanted ≡ desired = ground arith in
              rw p (
                Triple-bind _ _ (forget quiet_files) (λ changed.
                  Does-assume os w.channel w.sent _
                    (λ none_changed. rw none_changed (Triple-pure tt (λ s h. h))))))))))
      where
        forget :
            {A : Type 0} {P : Machine os → Type 0} {Q : A → Machine os → Type 0}
            {E : Str → Machine os → Type 0} {m : System os A}
            → Triple P m Q E
            → Triple P m Q (λ _ s. Unit {0})
        forget {m = m} t = Triple-map m (λ s h. h) (λ a s h. h) (λ e s h. tt) t

    -- If the directory holds exactly the files that the listed objects ask for, and no path is on the
    -- disk twice, then a sync that succeeds gives no notification, leaves every file as it was and
    -- sends nothing: also where an earlier sync wrote the files and failed, so that nobody was told.
    pub sync_policies-IsQuiet :
        (w' : Machine os)
        → c.list_policies w.calls ≡ ok objects
        → sync_policies os c dir w ≡ (ok tt, w')
        → (w'.channel ≡ w.channel) × SameFiles w.files w'.files × (w'.sent ≡ w.sent)
    sync_policies-IsQuiet w' answered e =
        let q = Triple-ok _ (quiet answered) w w' tt refl e in
        (q.same_channel, q.files, q.same_sent)
