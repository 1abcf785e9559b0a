-- ===== src/Grammar.antt =====
-- src/inflection/grammar/synthesis: what the grammars of the languages share.
pub mod SynthesizerUtil
mod Tests
