-- ===== src/Utils.antt =====
-- The package utils: the parameters of templates.
pub mod Templates
pub mod Maps
pub mod Valid
pub mod Blame
pub mod Defaults
mod Tests
