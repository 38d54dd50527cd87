-- ===== src/CssLib.antt =====
-- css_lib: the types and rules that the server and the edge share.
pub mod Wire
pub mod Bypass
