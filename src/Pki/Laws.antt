-- ===== src/Pki/Laws.antt =====
-- What holds of pki.go. Files: what reading and writing does. Certificates: what is signed and kept.
pub mod Files
pub mod Certificates
pub mod Stored
