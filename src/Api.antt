-- ===== src/Api.antt =====
-- operator/api/v1: the custom resources. A pointer is an `Option`, a slice a list, a map a `GoMap`.
-- `Api.Pod` has the parts of a pod, `Api.Deployment` the deployments and the custom resources.
pub mod Raw
pub mod Pod
pub mod Deployment
pub use Raw.*
pub use Pod.*
pub use Deployment.*
