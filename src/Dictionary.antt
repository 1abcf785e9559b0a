-- ===== src/Dictionary.antt =====
-- src/inflection/dictionary: what is known of a word, and how a word is inflected.
pub mod MetaData
pub mod Inflector
pub mod PhraseProperties
pub mod PropertyMaps
mod Tests
