-- ===== src/Controller/Policies.antt =====
-- internal/kubenotation/controller/trustpolicy_controller.go.
pub mod Cleaned
pub mod Writes
pub mod Exact
pub mod Synced
pub mod Wanted
pub mod Sync
pub mod Reconciled
pub mod Idle
pub mod Quiet
use notation_aws_verifier.Prelude.{
  Str, codes, ◌==◌, ◌++◌, Bool, true, false, not, ◌&&◌, ◌||◌, Option, none, some, List, [], ◌∷◌,
  if◌then◌else◌,
}
use notation_aws_verifier.Prelude.Exec.{Exec, pure, fail, lift, wrap, attempt, ◌>>=◌}
use notation_aws_verifier.Prelude.Map.{Map, keys, lookup, insert, entries_at}
use notation_aws_verifier.Prelude.Result.{Result, ok, err, map_err}
use notation_aws_verifier.Deps.{DirEntry}
use notation_aws_verifier.Disk.{Os, Machine, System, mkdir_all, read_dir, remove}
use notation_aws_verifier.Disk.Paths.{join}
use notation_aws_verifier.Factory.Refresh.{ext}
use notation_aws_verifier.Controller.Cluster.{TrustPolicy, Cluster, query, update_object}
use notation_aws_verifier.Controller.Files.{validate_file_name, write_file_if_changed, notify}

module _ (os : Os) where
  -- The entries of `desired`, in the order of this loop.
  unfoldable pub range_desired : Map Str → System os (Map Str)
  range_desired desired w = (ok (entries_at (os.range_order w.calls (keys desired)) desired), w)

  -- The loop over the desired files.
  unfoldable pub write_policies : Str → Map Str → Bool → System os Bool
  write_policies dir [] changed = pure changed
  write_policies dir ((name, text) ∷ rest) changed = do
    written ←
        wrap (λ e. codes "failed to write trust policy " ++ (name ++ (codes ": " ++ e)))
          (write_file_if_changed os (join dir name) dir text)
    write_policies dir rest (changed || written)

  abbrev pub is_desired : Option Str → Bool
  is_desired none = false
  is_desired (some text) = true

  -- `err != nil && !os.IsNotExist(err)`
  abbrev pub removed_or : (Str → Str) → Result (Unit {0}) → System os (Unit {0})
  removed_or f (ok u) = pure tt
  removed_or f (err e) = if not (os.is_not_exist e) then fail (f e) else pure tt

  unfoldable pub remove_stale : Str → Str → System os (Unit {0})
  remove_stale dir name = do
    r ← attempt (remove os (join dir name))
    removed_or (λ e. codes "failed to delete trust policy " ++ (name ++ (codes ": " ++ e))) r

  -- The loop over the entries of the directory.
  unfoldable pub clean_policies : Str → Map Str → List DirEntry → Bool → System os Bool
  unfolding remove_stale
  clean_policies dir desired [] changed = pure changed
  clean_policies dir desired (e ∷ es) changed =
      let skipped = clean_policies dir desired es changed in
      let cleaned = (do gone ← remove_stale dir e.name; clean_policies dir desired es true) in
      if e.is_dir || not (ext e.name == codes ".json")
      then skipped
      else if is_desired (lookup e.name desired)
      then skipped
      else cleaned

  unfoldable pub sync_trust_policy_files : Str → Map Str → System os Bool
  unfolding write_policies clean_policies range_desired
  sync_trust_policy_files dir desired = do
    made ← wrap (λ e. codes "failed to create " ++ (dir ++ (codes ": " ++ e))) (mkdir_all os dir)
    wanted ← range_desired desired
    changed ← write_policies dir wanted false
    entries ← read_dir os dir
    clean_policies dir desired entries changed

module _ (os : Os) (c : Cluster os.Object) where
  open c use {Meta}

  -- The loop over the listed objects; those that are deleted or have a bad name are left out.
  unfoldable pub desired_policies : List (TrustPolicy Meta) → Map Str → Result (Map Str)
  desired_policies [] desired = ok desired
  desired_policies (p ∷ ps) desired =
      let skipped = desired_policies ps desired in
      let name = p.spec.trust_policy_name in
      let marshalled =
        map_err
          (λ e. codes "failed to marshal trust policy " ++ (c.name_of p.meta ++ (codes ": " ++ e)))
          (c.marshal p.spec) in
      let kept : Result (Map Str) = elim marshalled [
        | err e ↦ err e
        | ok text ↦ desired_policies ps (insert (name ++ codes ".json") text desired)
      ] in
      if c.is_deleted p.meta
      then skipped
      else elim (validate_file_name os name) [ err e ↦ skipped | ok u ↦ kept ]

  abbrev pub notify_if : Bool → System os (Unit {0})
  notify_if changed = if changed then notify os else pure tt

  unfoldable pub sync_policies : Str → System os (Unit {0})
  unfolding desired_policies sync_trust_policy_files query notify
  sync_policies dir = do
    list ← wrap (λ e. codes "failed to list trust policies: " ++ e) (query os c c.list_policies)
    desired ← lift (desired_policies list [])
    changed ← sync_trust_policy_files os dir desired
    notify_if changed

  -- `Get`, where a missing object is no error.
  abbrev pub found_or_gone : {A : Type 0} → Result A → System os (Option A)
  found_or_gone (ok a) = pure (some a)
  found_or_gone (err e) = if not (c.is_not_found e) then fail e else pure none

  -- Sends the object with the finalizer added or removed, if that changed it.
  abbrev pub send_changed : (Meta → os.Object) → Meta × Bool → System os (Unit {0})
  send_changed object (meta, changed) =
      if changed then update_object os c (object meta) else pure tt

  abbrev pub finalizer : Str
  finalizer = codes "notation.nirmata.io/finalizer"

  abbrev pub with_meta : TrustPolicy Meta → Meta → os.Object
  with_meta p meta = c.policy_object (record p { meta = meta })

  abbrev pub before_sync : Option (TrustPolicy Meta) → System os (Unit {0})
  before_sync none = pure tt
  before_sync (some p) =
      if not (c.is_deleted p.meta)
      then send_changed (with_meta p) (c.add_finalizer finalizer p.meta)
      else pure tt

  abbrev pub after_sync : Option (TrustPolicy Meta) → System os (Unit {0})
  after_sync none = pure tt
  after_sync (some p) =
      if c.is_deleted p.meta
      then send_changed (with_meta p) (c.remove_finalizer finalizer p.meta)
      else pure tt

  unfoldable pub reconcile_policy : Str → Str → System os (Unit {0})
  unfolding sync_policies query update_object
  reconcile_policy dir name = do
    answer ← attempt (query os c (λ n. c.get_policy n name))
    found ← found_or_gone answer
    prepared ← before_sync found
    synced ← sync_policies dir
    after_sync found
