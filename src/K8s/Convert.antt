-- ===== src/K8s/Convert.antt =====
-- common/k8sassist/corev1/cgv5/types/convert.go: between the program's types and those of the
-- Kubernetes API. A pointer that the code tests for nil is an `Option`.
pub mod Meta
pub mod Node
pub mod Service
pub mod Storage
pub mod Scaling
pub mod Volume
pub mod Container
pub mod Pod
pub mod Deployment
pub mod Tests
