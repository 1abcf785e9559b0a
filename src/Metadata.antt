-- ===== src/Metadata.antt =====
-- The low-level storage of the dictionaries: src/inflection/dictionary/metadata.
pub mod CompressedArray
pub mod StringArrayContainer
