-- ===== src/Tests/Stores.antt =====
-- The theorems on the trust stores at a small disk and API server.
use notation_aws_verifier.Prelude.{
  Str, codes, ◌==◌, ==_iff, Bool, true, false, none, some, [], ◌∷◌, ◌≡◌, ◌⊎◌, refl, sym, ◌∙◌, ap,
  arith,
}
use notation_aws_verifier.Prelude.Map.{Map, lookup}
use notation_aws_verifier.Prelude.Result.{ok}
use notation_aws_verifier.Prelude.Text.Scan.{contains_char}
use notation_aws_verifier.Disk.{Machine, remove_all}
use notation_aws_verifier.Disk.Names.{IsName, child_path}
use notation_aws_verifier.Disk.Tree.{Node, file, directory, is_below, delete_below}
use notation_aws_verifier.Controller.Cluster.{TrustStore, Cluster}
use notation_aws_verifier.Controller.Stores.Defs.{
  write_stores, clean_type, clean_stores, desired_stores, sync_trust_stores, sync_stores,
  reconcile_store,
}
use notation_aws_verifier.Controller.Stores.Cleaned.{key_of}
use notation_aws_verifier.Controller.Stores.Paths.{cert_path, cert_path_inj, slash_inj}
use notation_aws_verifier.Controller.Stores.Wanted.{AsksAll, desired_stores-AsksAll}
use notation_aws_verifier.Controller.Stores.Defs.{desired_stores}
use notation_aws_verifier.Prelude.{List, ◌∷◌}
use notation_aws_verifier.Controller.Cluster.{TrustStore}
use notation_aws_verifier.Controller.Stores.Synced.{IsGrounded}
use notation_aws_verifier.Controller.Stores.Sync.{IsListed, StoresSynced, sync_stores-StoresSynced}
use notation_aws_verifier.Controller.Stores.Reconciled.{reconcile_store-finalizer}
use notation_aws_verifier.Tests.Files.{toy_os, toy_os-OsLaws}
use notation_aws_verifier.Tests.Reconcile.{toy_cluster, synced}

abbrev toy_store : Str → Bool → TrustStore Bool
toy_store name gone = record {
  meta = gone;
  spec = record { trust_store_name = name; type = codes "ca"; ca_bundle = codes "pem" };
}

-- One store is wanted, and another is being deleted.
abbrev store_cluster : Cluster Str
store_cluster = record toy_cluster {
  get_store = λ n name. ok (toy_store (codes "old") true);
  list_stores = λ n. ok (toy_store (codes "new") false ∷ toy_store (codes "old") true ∷ []);
}

abbrev stale_path : Str
stale_path = codes "d/truststore/x509/ca/old/certificates.crt"

abbrev store_files : Map Node
store_files =
    (codes "d", directory)
    ∷ (codes "d/truststore", directory)
    ∷ (codes "d/truststore/x509", directory)
    ∷ (codes "d/truststore/x509/ca", directory)
    ∷ (codes "d/truststore/x509/ca/old", directory)
    ∷ (stale_path, file (codes "old"))
    ∷ []

abbrev store_machine : Machine (toy_os none)
store_machine = record { calls = 0; files = store_files; channel = some false; sent = [] }

stores_after : Machine (toy_os none)
unfolding synced sync_stores desired_stores sync_trust_stores write_stores clean_stores clean_type
    remove_all is_below delete_below
stores_after = (sync_stores (toy_os none) store_cluster (codes "d") store_machine).1

store_reconciled : Machine (toy_os none)
unfolding stores_after reconcile_store
store_reconciled =
    (reconcile_store (toy_os none) store_cluster (codes "d") (codes "old") store_machine).1

test_new :
    lookup (codes "d/truststore/x509/ca/new/certificates.crt") stores_after.files
    ≡ some (file (codes "pem"))
unfolding stores_after
test_new = refl

test_old : lookup (codes "d/truststore/x509/ca/old") stores_after.files ≡ none
unfolding stores_after
test_old = refl

only_file : (q b : Str) → lookup q store_files ≡ some (file b) → q ≡ stale_path
unfolding lookup
only_file q b h = ground (arith, ==_iff stale_path q)

ca-IsName : IsName (codes "ca")
unfolding codes contains_char
ca-IsName = record {
  filled = λ e. absurd (ground arith);
  no_dot = λ e. absurd (ground arith);
  no_dots = λ e. absurd (ground arith);
  no_slash = refl;
}

old-IsName : IsName (codes "old")
unfolding codes contains_char
old-IsName = record {
  filled = λ e. absurd (ground arith);
  no_dot = λ e. absurd (ground arith);
  no_dots = λ e. absurd (ground arith);
  no_slash = refl;
}

store_files-IsGrounded : IsGrounded (codes "d/truststore/x509") store_files
unfolding lookup codes ◌==◌
store_files-IsGrounded k b key at =
    let old = key_of (codes "ca") (codes "old") ca-IsName old-IsName in
    let k_is : k ≡ child_path (codes "ca") (codes "old") =
      cert_path_inj (codes "d/truststore/x509") k (child_path (codes "ca") (codes "old")) key old
        (only_file (cert_path (codes "d/truststore/x509") k) b at) in
    let t_is : key.type ≡ codes "ca" =
      (slash_inj key.type (codes "ca") key.name (codes "old") key.is_type.no_slash
        ca-IsName.no_slash (sym key.joined ∙ k_is)).0 in
    (
      ap (λ x. lookup (child_path (codes "d/truststore/x509") x) store_files) t_is,
      ap (λ x. lookup (child_path (codes "d/truststore/x509") x) store_files) k_is,
    )

toy_stores : List (TrustStore Bool)
toy_stores = toy_store (codes "new") false ∷ toy_store (codes "old") true ∷ []

sync_stores-StoresSynced_example :
    StoresSynced (toy_os none) store_cluster (codes "d") store_files (some false) [] stores_after
unfolding stores_after
sync_stores-StoresSynced_example =
    sync_stores-StoresSynced (toy_os none) (toy_os-OsLaws none) store_cluster (codes "d")
      store_machine store_files-IsGrounded stores_after refl

reconcile_store-finalizer_example :
    (store_reconciled.sent ≡ [])
    ⊎ IsListed (toy_os none) store_cluster (codes "d") store_reconciled.files
unfolding store_reconciled
reconcile_store-finalizer_example =
    reconcile_store-finalizer (toy_os none) (toy_os-OsLaws none) store_cluster (codes "d")
      (codes "old") store_machine (toy_store (codes "old") true) store_files-IsGrounded refl refl

desired_stores-AsksAll_example :
    AsksAll
      (toy_os none)
      store_cluster
      toy_stores
      (desired_stores (toy_os none) store_cluster toy_stores [])
desired_stores-AsksAll_example = desired_stores-AsksAll (toy_os none) store_cluster toy_stores
