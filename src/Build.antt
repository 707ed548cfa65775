-- ===== src/Build.antt =====
-- operator/controllers/utils.go: the functions that build Kubernetes objects from a custom
-- resource, one module each.
pub mod Outcome
pub mod Labels
pub mod Volumes
pub mod Containers
pub mod StatefulSet
pub mod Service
pub mod ConfigMap
pub mod Pdb
pub mod Event
