-- ===== src/Markdown.antt =====
-- internal/markdown: documents as sequences of blocks.
pub mod Lines
pub mod Split
pub mod Edits
pub mod Diff
mod Tests
