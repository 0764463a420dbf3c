-- ===== src/K8s/Api.antt =====
-- The struct types of the Kubernetes API packages, with the fields that the conversions read or
-- write, and a few that an update has to leave alone. The packages are not the repository's code.
pub mod Meta
pub mod Node
pub mod Service
pub mod Storage
pub mod Scaling
pub mod Pod
pub mod Workload
