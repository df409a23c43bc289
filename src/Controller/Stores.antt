-- ===== src/Controller/Stores.antt =====
-- internal/kubenotation/controller/truststore_controller.go.
pub mod Defs
pub mod Paths
pub mod Writes
pub mod Cleaned
pub mod Wanted
pub mod Synced
pub mod Sync
pub mod Reconciled
