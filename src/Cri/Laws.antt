-- ===== src/Cri/Laws.antt =====
-- What the handlers of pkg/cri/cri.go reply and leave behind.
pub mod States
pub mod Stop
pub mod Run
pub mod Remove
pub mod Create
pub mod Containers
pub mod Images
pub mod Unnamed
