-- ===== src/Controller/Policies/Sync.antt =====
-- `TrustPolicyReconciler.sync`: what it does to the disk, the channel and the API server.
use notation_aws_verifier.Prelude.{
  Str, ℕ, suc, ap, Bool, true, false, Option, List, [], ◌≡◌, ◌⊎◌, inl, inr, refl,
}
use notation_aws_verifier.Prelude.Exec.{lift}
use notation_aws_verifier.Prelude.Exec.Triple.{
  Triple, Outcome, Triple-ok, Triple-map, Triple-wrap, Triple-bind,
}
use notation_aws_verifier.Prelude.Map.{Map}
use notation_aws_verifier.Prelude.Result.{Result, ok, err}
use notation_aws_verifier.Disk.{Os, Machine}
use notation_aws_verifier.Disk.Frames.{OsLaws, At, At-map, Does, Does-map, Does-assume}
use notation_aws_verifier.Disk.Tree.{Node}
use notation_aws_verifier.Controller.Cluster.{TrustPolicy, Cluster, query}
use notation_aws_verifier.Controller.Files.{fill_slot, notify}
use notation_aws_verifier.Controller.Policies.{
  desired_policies, sync_trust_policy_files, notify_if, sync_policies,
}
use notation_aws_verifier.Controller.Policies.Exact.{SameFiles, IsExact}
use notation_aws_verifier.Controller.Policies.Synced.{Does-sync_trust_policy_files}
use notation_aws_verifier.Controller.Policies.Wanted.{desired_policies-IsPolicyFile}

module _ (os : Os) (c : Cluster os.Object) where
  open c use {Meta}

  -- The disk holds the policies that the API server listed.
  pub record IsListed (dir : Str) (files : Map Node) : Type 0 where
    pub call : ℕ
    pub objects : List (TrustPolicy Meta)
    pub desired : Map Str
    pub answered : c.list_policies call ≡ ok objects
    pub turned : desired_policies os c objects [] ≡ ok desired
    pub exact : IsExact dir desired files

  -- Behind a success: the channel got a notification, or every file is as it was.
  abbrev pub Told : Map Node → Option Bool → Machine os → Type 0
  Told f0 channel w =
      (w.channel ≡ fill_slot os channel) ⊎ ((w.channel ≡ channel) × SameFiles f0 w.files)

  pub record PoliciesSynced (dir : Str) (f0 : Map Node) (channel : Option Bool)
      (sent : List os.Object) (w : Machine os) : Type 0 where
    pub listed : IsListed dir w.files
    pub told : Told f0 channel w
    pub same_sent : w.sent ≡ sent

module _ (os : Os) (laws : OsLaws os) (c : Cluster os.Object) (channel : Option Bool)
    (sent : List os.Object) where
  open c use {Meta}

  pub Does-query :
      {A : Type 0} (P : Map Node → Type 0) (q : ℕ → Result A)
      → Does os channel sent P (query os c q) (λ a f. ((n : ℕ) × (q n ≡ ok a)) × P f) P
  unfolding query
  Does-query P q = record { run = λ w h. by_answer P q (q w.calls) w.calls refl w h }
    where
      by_answer :
          {A : Type 0} (P : Map Node → Type 0) (q : ℕ → Result A) (r : Result A) (n : ℕ)
          → q n ≡ r
          → (w : Machine os) → At os channel sent P w
          → Outcome
              (λ a. At os channel sent (λ f. ((n : ℕ) × (q n ≡ ok a)) × P f))
              (λ _. At os channel sent P)
              r
              (record w { calls = suc w.calls })
      by_answer P q (ok a) n e w h = record {
        files = ((n, e), h.files);
        same_channel = h.same_channel;
        same_sent = h.same_sent;
      }
      by_answer P q (err x) n e w h = record {
        files = h.files;
        same_channel = h.same_channel;
        same_sent = h.same_sent;
      }

  pub Does-lift :
      {A : Type 0} (P : Map Node → Type 0) (r : Result A)
      → Does os channel sent P (lift r) (λ a f. (r ≡ ok a) × P f) P
  Does-lift P (ok a) = record { run = λ w. At-map os channel sent _ _ (λ f h. (refl, h)) w }
  Does-lift P (err e) = record { run = λ w h. h }

  -- The last step, behind the files.
  notified :
      (dir : Str) (f0 : Map Node) (changed : Bool)
      → Triple
          (At os channel sent (λ f. IsListed os c dir f × (changed ≡ false → SameFiles f0 f)))
          (notify_if os c changed)
          (λ _. PoliciesSynced os c dir f0 channel sent)
          (λ _. At os channel sent (λ f. Unit))
  notified dir f0 true =
      unfold notify in
      record {
        run = λ w h. record {
          listed = h.files.0;
          told = inl (ap (fill_slot os) h.same_channel);
          same_sent = h.same_sent;
        };
      }
  notified dir f0 false = record {
    run = λ w h. record {
      listed = h.files.0;
      told = inr (h.same_channel, h.files.1 refl);
      same_sent = h.same_sent;
    };
  }

  -- The files for a list that the API server gave.
  written :
      (dir : Str) (f0 : Map Node) (n : ℕ) (objects : List (TrustPolicy Meta)) (desired : Map Str)
      → c.list_policies n ≡ ok objects
      → desired_policies os c objects [] ≡ ok desired
      → Does os channel sent
          (λ f. f ≡ f0)
          (sync_trust_policy_files os dir desired)
          (λ changed f. IsListed os c dir f × (changed ≡ false → SameFiles f0 f))
          (λ f. Unit)
  written dir f0 n objects desired answered turned =
      let good = desired_policies-IsPolicyFile os c objects desired turned in
      Does-map os channel sent _ (λ f h. h)
        (λ changed f h. (
          record {
            call = n;
            objects = objects;
            desired = desired;
            answered = answered;
            turned = turned;
            exact = h.0;
          },
          h.1,
        ))
        (λ f u. u) (Does-sync_trust_policy_files os laws channel sent dir desired good f0)

  Triple-sync_policies :
      (dir : Str) (f0 : Map Node)
      → Triple
          (At os channel sent (λ f. f ≡ f0))
          (sync_policies os c dir)
          (λ _. PoliciesSynced os c dir f0 channel sent)
          (λ _. At os channel sent (λ f. Unit))
  unfolding sync_policies
  Triple-sync_policies dir f0 =
      Triple-bind _ _
        (Triple-wrap _ _ _ _ (
          Does-map os channel sent _ (λ f h. h) (λ a f h. h) (λ f h. tt)
            (Does-query (λ f. f ≡ f0) c.list_policies)))
        (λ objects. Does-assume os channel sent _ (λ (n, answered).
          Triple-bind _ _
            (Does-map os channel sent _ (λ f h. h) (λ a f h. h) (λ f h. tt)
              (Does-lift (λ f. f ≡ f0) (desired_policies os c objects [])))
            (λ desired. Does-assume os channel sent _ (λ turned.
              Triple-bind _ _ (written dir f0 n objects desired answered turned)
                (notified dir f0)))))

module _ (os : Os) (laws : OsLaws os) (c : Cluster os.Object) where
  open c use {Meta}

  -- A sync from a state with a name.
  pub synced :
      (dir : Str) (w : Machine os)
      → Triple
          (λ s. s ≡ w)
          (sync_policies os c dir)
          (λ _. PoliciesSynced os c dir w.files w.channel w.sent)
          (λ _. At os w.channel w.sent (λ f. Unit))
  synced dir w =
      Triple-map _
        (λ s e. record {
          files = ap (λ x. x.files) e;
          same_channel = ap (λ x. x.channel) e;
          same_sent = ap (λ x. x.sent) e;
        })
        (λ a s h. h) (λ e s h. h) (Triple-sync_policies os laws c w.channel w.sent dir w.files)

  -- When a sync of the trust policies succeeds, the *.json files of the directory are exactly those
  -- that the objects of the API server's list ask for; if any file has changed, the channel has
  -- its notification; and nothing was sent to the API server.
  pub sync_policies-PoliciesSynced :
      (dir : Str) (w w' : Machine os)
      → sync_policies os c dir w ≡ (ok tt, w')
      → PoliciesSynced os c dir w.files w.channel w.sent w'
  sync_policies-PoliciesSynced dir w w' = Triple-ok _ (synced dir w) w w' tt refl
