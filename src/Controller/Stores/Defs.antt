-- ===== src/Controller/Stores/Defs.antt =====
-- internal/kubenotation/controller/truststore_controller.go.
use notation_aws_verifier.Prelude.{
  Str, codes, ◌++◌, Bool, true, false, not, ◌||◌, Option, none, some, List, [], ◌∷◌, if◌then◌else◌,
}
use notation_aws_verifier.Prelude.Exec.{pure, wrap, attempt, ◌>>=◌}
use notation_aws_verifier.Prelude.Map.{Map, lookup, insert}
use notation_aws_verifier.Prelude.Result.{Result, ok, err}
use notation_aws_verifier.Deps.{DirEntry}
use notation_aws_verifier.Disk.{Os, System, mkdir_all, read_dir, remove_all}
use notation_aws_verifier.Disk.Paths.{join}
use notation_aws_verifier.Controller.Cluster.{TrustStore, Cluster, query}
use notation_aws_verifier.Controller.Files.{validate_file_name, write_file_if_changed}
use notation_aws_verifier.Controller.Policies.{
  range_desired, is_desired, notify_if, found_or_gone, send_changed, finalizer,
}

abbrev pub cert_file : Str
cert_file = codes "certificates.crt"

module _ (os : Os) where
  -- The loop over the desired bundles.
  unfoldable pub write_stores : Str → Map Str → Bool → System os Bool
  write_stores root [] changed = pure changed
  write_stores root ((rel, text) ∷ rest) changed = do
    let dir = join root rel
    made ← wrap (λ e. codes "failed to create " ++ (dir ++ (codes ": " ++ e))) (mkdir_all os dir)
    written ←
        wrap (λ e. codes "failed to write trust store " ++ (rel ++ (codes ": " ++ e)))
          (write_file_if_changed os (join dir cert_file) root text)
    write_stores root rest (changed || written)

  -- The loop over what stands in the directory of a type.
  unfoldable pub clean_type : Str → Str → Map Str → List DirEntry → Bool → System os Bool
  clean_type root type desired [] changed = pure changed
  clean_type root type desired (s ∷ stores) changed =
      let rel = join type s.name in
      let kept = clean_type root type desired stores changed in
      let cleaned = (do
        gone ←
            wrap (λ e. codes "failed to delete trust store " ++ (rel ++ (codes ": " ++ e)))
              (remove_all os (join root rel))
        clean_type root type desired stores true) in
      if is_desired os (lookup rel desired) then kept else cleaned

  -- The loop over the types.
  unfoldable pub clean_stores : Str → Map Str → List DirEntry → Bool → System os Bool
  unfolding clean_type
  clean_stores root desired [] changed = pure changed
  clean_stores root desired (t ∷ types) changed =
      let skipped = clean_stores root desired types changed in
      let cleaned = (do
        stores ← read_dir os (join root t.name)
        changed' ← clean_type root t.name desired stores changed
        clean_stores root desired types changed') in
      if not t.is_dir then skipped else cleaned

  unfoldable pub sync_trust_stores : Str → Map Str → System os Bool
  unfolding write_stores clean_stores
  sync_trust_stores root desired = do
    made ← wrap (λ e. codes "failed to create " ++ (root ++ (codes ": " ++ e))) (mkdir_all os root)
    wanted ← range_desired os desired
    changed ← write_stores root wanted false
    types ← read_dir os root
    clean_stores root desired types changed

module _ (os : Os) (c : Cluster os.Object) where
  open c use {Meta}

  abbrev pub is_valid : Result (Unit {0}) → Bool
  is_valid (ok u) = true
  is_valid (err e) = false

  -- The loop over the listed objects.
  unfoldable pub desired_stores : List (TrustStore Meta) → Map Str → Map Str
  desired_stores [] desired = desired
  desired_stores (s ∷ ss) desired =
      let skipped = desired_stores ss desired in
      let kept =
        desired_stores ss
          (insert (join s.spec.type s.spec.trust_store_name) s.spec.ca_bundle desired) in
      if c.is_deleted s.meta
      then skipped
      else if not (is_valid (validate_file_name os s.spec.type))
      then skipped
      else if not (is_valid (validate_file_name os s.spec.trust_store_name))
      then skipped
      else kept

  abbrev pub trust_store_path : Str
  trust_store_path = codes "truststore/x509"

  unfoldable pub sync_stores : Str → System os (Unit {0})
  unfolding desired_stores sync_trust_stores
  sync_stores dir = do
    list ← wrap (λ e. codes "failed to list trust stores: " ++ e) (query os c c.list_stores)
    changed ← sync_trust_stores os (join dir trust_store_path) (desired_stores list [])
    notify_if os c changed

  abbrev pub with_store_meta : TrustStore Meta → Meta → os.Object
  with_store_meta s meta = c.store_object (record s { meta = meta })

  abbrev pub before_store_sync : Option (TrustStore Meta) → System os (Unit {0})
  before_store_sync none = pure tt
  before_store_sync (some s) =
      if not (c.is_deleted s.meta)
      then send_changed os c (with_store_meta s) (c.add_finalizer (finalizer os c) s.meta)
      else pure tt

  abbrev pub after_store_sync : Option (TrustStore Meta) → System os (Unit {0})
  after_store_sync none = pure tt
  after_store_sync (some s) =
      if c.is_deleted s.meta
      then send_changed os c (with_store_meta s) (c.remove_finalizer (finalizer os c) s.meta)
      else pure tt

  unfoldable pub reconcile_store : Str → Str → System os (Unit {0})
  unfolding sync_stores
  reconcile_store dir name = do
    answer ← attempt (query os c (λ n. c.get_store n name))
    found ← found_or_gone os c answer
    prepared ← before_store_sync found
    synced ← sync_stores dir
    after_store_sync found
