-- ===== src/Controller.antt =====
-- internal/kubenotation/controller: the reconcilers that write the trust policies and the trust
-- stores of the cluster to the disk.
pub mod Cluster
pub mod Files
pub mod Policies
pub mod Sent
pub mod Stores
