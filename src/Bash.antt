-- ===== src/Bash.antt =====
-- The shell tool: src/bash-tool.
pub mod OutputCapture
mod Tests
