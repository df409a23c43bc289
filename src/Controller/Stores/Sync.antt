-- ===== src/Controller/Stores/Sync.antt =====
-- `TrustStoreReconciler.sync`: what it does to the disk, the channel and the API server.
use notation_aws_verifier.Prelude.{
  Str, ℕ, Bool, true, false, Option, List, [], ◌≡◌, inl, inr, refl, ap,
}
use notation_aws_verifier.Prelude.Exec.Triple.{
  Triple, Triple-ok, Triple-map, Triple-wrap, Triple-bind,
}
use notation_aws_verifier.Prelude.Map.{Map}
use notation_aws_verifier.Prelude.Result.{ok}
use notation_aws_verifier.Disk.{Os, Machine}
use notation_aws_verifier.Disk.Frames.{OsLaws, At, Does-map, Does-assume}
use notation_aws_verifier.Disk.Paths.{join}
use notation_aws_verifier.Disk.Tree.{Node}
use notation_aws_verifier.Controller.Cluster.{TrustStore, Cluster}
use notation_aws_verifier.Controller.Files.{fill_slot, notify}
use notation_aws_verifier.Controller.Policies.{notify_if}
use notation_aws_verifier.Controller.Policies.Exact.{SameFiles}
use notation_aws_verifier.Controller.Policies.Sync.{Told, Does-query}
use notation_aws_verifier.Controller.Stores.Defs.{trust_store_path, desired_stores, sync_stores}
use notation_aws_verifier.Controller.Stores.Wanted.{AsksAll, desired_stores-AsksAll}
use notation_aws_verifier.Controller.Stores.Synced.{
  IsGrounded, IsStored, desired_stores-IsStoreKey, Does-sync_trust_stores,
}

module _ (os : Os) (c : Cluster os.Object) where
  open c use {Meta}

  abbrev pub root_of : Str → Str
  root_of dir = join dir (trust_store_path os c)

  -- The disk holds exactly the bundles that the objects ask for that the API server listed.
  pub record IsListed (dir : Str) (files : Map Node) : Type 0 where
    pub call : ℕ
    pub objects : List (TrustStore Meta)
    pub answered : c.list_stores call ≡ ok objects
    pub bundles : Map Str
    pub asked : AsksAll os c objects bundles
    pub exact : IsStored (root_of dir) bundles files

  pub record StoresSynced (dir : Str) (f0 : Map Node) (channel : Option Bool)
      (sent : List os.Object) (w : Machine os) : Type 0 where
    pub listed : IsListed dir w.files
    pub told : Told os c f0 channel w
    pub same_sent : w.sent ≡ sent

module _ (os : Os) (laws : OsLaws os) (c : Cluster os.Object) (dir : Str) (w : Machine os)
    (grounded : IsGrounded (root_of os c dir) w.files) where
  open c use {Meta}

  notified :
      (changed : Bool)
      → Triple
          (At os w.channel w.sent
            (λ f. IsListed os c dir f × (changed ≡ false → SameFiles w.files f)))
          (notify_if os c changed)
          (λ _. StoresSynced os c dir w.files w.channel w.sent)
          (λ _. At os w.channel w.sent (λ f. Unit))
  notified true =
      unfold notify in
      record {
        run = λ s h. record {
          listed = h.files.0;
          told = inl (ap (fill_slot os) h.same_channel);
          same_sent = h.same_sent;
        };
      }
  notified false = record {
    run = λ s h. record {
      listed = h.files.0;
      told = inr (h.same_channel, h.files.1 refl);
      same_sent = h.same_sent;
    };
  }

  from_files :
      Triple
        (At os w.channel w.sent (λ f. f ≡ w.files))
        (sync_stores os c dir)
        (λ _. StoresSynced os c dir w.files w.channel w.sent)
        (λ _. At os w.channel w.sent (λ f. Unit))
  unfolding sync_stores
  from_files =
      Triple-bind _ _
        (Triple-wrap _ _ _ _ (
          Does-map os w.channel w.sent _ (λ f h. h) (λ a f h. h) (λ f h. tt)
            (Does-query os laws c w.channel w.sent (λ f. f ≡ w.files) c.list_stores)))
        (λ objects. Does-assume os w.channel w.sent _ (λ (n, answered).
          Triple-bind _ _
            (Does-map os w.channel w.sent _ (λ f h. h)
              (λ changed f h. (
                record {
                  call = n;
                  objects = objects;
                  answered = answered;
                  bundles = desired_stores os c objects [];
                  asked = desired_stores-AsksAll os c objects;
                  exact = h.0;
                },
                h.1,
              ))
              (λ f h. h)
              (Does-sync_trust_stores os laws w.channel w.sent (root_of os c dir)
                (desired_stores os c objects []) (desired_stores-IsStoreKey os c objects) w.files
                grounded))
            notified))

  pub stores_synced :
      Triple
        (λ s. s ≡ w)
        (sync_stores os c dir)
        (λ _. StoresSynced os c dir w.files w.channel w.sent)
        (λ _. At os w.channel w.sent (λ f. Unit))
  stores_synced =
      Triple-map _
        (λ s e. record {
          files = ap (λ x. x.files) e;
          same_channel = ap (λ x. x.channel) e;
          same_sent = ap (λ x. x.sent) e;
        })
        (λ a s h. h) (λ e s h. h) from_files

  -- If the bundles on the disk lie in directories, then behind a sync of the trust stores that
  -- succeeds, the bundles below the root are exactly those that the objects of the API server's list
  -- ask for; the channel got its notification or every file is as it was; and nothing was sent to
  -- the API server.
  pub sync_stores-StoresSynced :
      (w' : Machine os)
      → sync_stores os c dir w ≡ (ok tt, w')
      → StoresSynced os c dir w.files w.channel w.sent w'
  sync_stores-StoresSynced w' e = Triple-ok _ stores_synced w w' tt refl e
