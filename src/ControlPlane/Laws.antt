-- ===== src/ControlPlane/Laws.antt =====
-- What holds of controlplane.go and comps.go. Kept: no step loses a file. Authorities: those that
-- are known have their files. Issued: the loop over the requests. Steps: the other files. Flags,
-- Started: the processes find their files. Panics: an authority that cannot be made. Environment:
-- the programs that are run.
pub mod Kept
pub mod Files
pub mod Authorities
pub mod Issued
pub mod Steps
pub mod Flags
pub mod Started
pub mod Panics
pub mod Environment
