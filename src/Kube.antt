-- ===== src/Kube.antt =====
-- The objects of the Kubernetes API that the program builds and reads, with the fields it uses.
pub mod Pod
pub mod Objects
pub use Pod.*
pub use Objects.*
