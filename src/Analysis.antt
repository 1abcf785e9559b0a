-- ===== src/Analysis.antt =====
-- src/inflection/analysis, and the inflector of src/inflection/dialog that is built on it: which of its
-- possible inflections a word is taken for, and how it is inflected.
pub mod MorphologicalAnalyzer
pub mod InflectionOrder
pub mod DictionaryLookupInflector
pub mod Comparisons
pub mod Ordering
pub mod Exemplar
pub mod Selection
mod Tests
