-- ===== src/Utils.antt =====
-- core/utils and core/fallback: the wrappers around operations that may fail. An operation that is
-- called several times is a function of the number of the call.
pub mod Retry
pub mod Batch
pub mod Fallback
pub mod Tests
