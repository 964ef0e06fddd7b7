-- ===== src/Lsp.antt =====
-- The clients of language servers: src/lsp.
pub mod Changes
pub mod Documents
mod Tests
