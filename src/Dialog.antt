-- ===== src/Dialog.antt =====
-- Concepts and what they are printed and spoken as: src/inflection/dialog.
pub mod SpeakableString
pub mod Constraints
pub mod DisplayValue
pub mod Concept
pub mod ConceptList
pub mod PronounConcept
mod Tests
