-- ===== src/Deploy.antt =====
-- apiserver/service/serviceconfig.go: what a draft becomes on the cluster, a service and a
-- deployment, and the containers of a deployment read back for the user.
pub mod Service
pub mod Volumes
pub mod Containers
pub mod View
pub mod Pod
pub mod Cluster
pub mod Tests
