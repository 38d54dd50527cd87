-- ===== src/Cmi5/Categories.antt =====
-- cmi5/src/statement.rs, `categories`: the activities that mark a statement.
use cooperative_systems_spac.Prelude.{String}

abbrev pub cmi5 : String
cmi5 = "https://w3id.org/xapi/cmi5/context/categories/cmi5"

abbrev pub moveon : String
moveon = "https://w3id.org/xapi/cmi5/context/categories/moveon"
