-- ===== src/Masks.antt =====
-- internal/masks: paths of field masks, and their compiler.
pub mod Path
pub mod Compiler
pub mod Reading
pub mod Got
pub mod Sound
pub mod Crashes
pub mod Typed
pub mod Clearing
mod Tests
