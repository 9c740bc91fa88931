-- ===== src/Cri.antt =====
-- pkg/cri and pkg/cri/model: the in-memory container runtime.
pub mod Objects
pub mod Model
pub mod Runtime
pub mod Service
pub mod Consistent
pub mod Transitions
pub mod Exits
pub mod Sound
pub mod Laws
pub mod History
pub mod Tests
pub mod Sandboxes
pub mod Containers
pub mod Images
