-- ===== src/Util.antt =====
-- src/inflection/util: functions on strings that the other parts use.
pub mod StringViewUtils
pub mod DelimitedStringIterator
pub mod CodePoints
mod Tests
