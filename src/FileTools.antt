-- ===== src/FileTools.antt =====
-- The tools on files: src/file-tools.
pub mod Edit
pub mod ObservationStore
mod Tests
