-- ===== src/Cmi5/Manifest/RoundTrip.antt =====
-- cmi5/src/manifest.rs: a course that is written and read again.
pub mod Leaves
pub mod Labels
pub mod Units
pub mod Blocks
pub mod Document
