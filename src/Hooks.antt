-- ===== src/Hooks.antt =====
-- core/hooks: when hooks that watch files are run, and who hears of it.
pub mod Debounce
pub mod Single
pub mod Events
pub mod Tests
