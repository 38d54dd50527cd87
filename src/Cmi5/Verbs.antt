-- ===== src/Cmi5/Verbs.antt =====
-- cmi5/src/statement.rs, `verbs`: the verbs of cmi5, compared as texts.
use cooperative_systems_spac.Prelude.{String}

abbrev pub launched : String
launched = "http://adlnet.gov/expapi/verbs/launched"

abbrev pub initialized : String
initialized = "http://adlnet.gov/expapi/verbs/initialized"

abbrev pub completed : String
completed = "http://adlnet.gov/expapi/verbs/completed"

abbrev pub passed : String
passed = "http://adlnet.gov/expapi/verbs/passed"

abbrev pub failed : String
failed = "http://adlnet.gov/expapi/verbs/failed"

abbrev pub terminated : String
terminated = "http://adlnet.gov/expapi/verbs/terminated"
