-- ===== src/Config.antt =====
-- .kilo/get-shit-done/bin/lib/config.cjs: the project's config.json, its keys, values and defaults.
pub mod Keys
pub mod Values
pub mod Defaults
pub mod Commands
pub mod Arrays
mod Tests
