-- ===== src/K8s/Assist.antt =====
-- common/k8sassist/corev1/cgv5/apps: the clients that convert between the program's types and those
-- of the cluster's interface.
pub mod Node
pub mod Pod
