-- ===== src/Editor.antt =====
-- internal/editor: the blocks of a document. The modules below have the positions that are allocated
-- for blocks and the windows that the index sees.
pub mod Lexids
pub mod Windows
mod Tests
