-- ===== src/Ref/Laws.antt =====
-- What holds of pkg/ref/ref.go. Files: the files stay. Text: the text that is written.
pub mod Stored
pub mod Text
