-- ===== src/Model.antt =====
-- The data types of common/model that the components share.
pub mod Meta
pub mod Node
pub mod NodeGroup
pub mod Project
pub mod User
pub mod Service
pub mod Storage
pub mod Scaling
pub mod Pod
pub mod Deployment
pub mod Workload
pub mod ServiceConfig
