-- ===== src/Tsm.antt =====
-- The storage engine's TSM files: engine/tsm/tsm.cpp, engine/tsm/tsm_ingredient.h and .cpp, and the
-- readers of engine/tsm/iterator.cpp.
pub mod File
pub mod Timestamps
pub mod Strings
pub mod Block
pub mod Index
pub mod Layout
pub mod Create
