-- ===== src/Cmi5.antt =====
-- cmi5/src: training packages. What the content of a course may report, and what a report counts for.
pub mod Manifest
pub mod Verbs
pub mod Categories
pub mod Statement
pub mod Validation
pub mod Conformance
pub mod Launch
