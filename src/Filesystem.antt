-- ===== src/Filesystem.antt =====
-- The services on files: src/filesystem.
pub mod AccessPolicy
pub mod MutationQueue
pub mod PathCatalog
pub mod TextService
mod Tests
