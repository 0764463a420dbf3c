-- ===== src/K8s.antt =====
-- common/k8sassist: the cluster as the program sees it.
pub mod Api
pub mod Convert
pub mod Client
pub mod Assist
