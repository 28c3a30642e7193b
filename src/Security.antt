-- ===== src/Security.antt =====
-- .kilo/get-shit-done/bin/lib/security.cjs: the checks of paths, texts, arguments and names.
pub mod Patterns
pub mod Scan
pub mod Paths
pub mod Arguments
pub mod Structure
mod Tests
