-- ===== src/Cmi5/Launch/Examples.antt =====
-- A launch whose addresses hold reserved characters.
use cooperative_systems_spac.Prelude.{ℕ, ◌≡◌, refl, Option, none, some, List, [], ◌∷◌, arith}
use cooperative_systems_spac.Cmi5.Statement.{Agent}
use cooperative_systems_spac.Cmi5.Launch.{
  LaunchParams, ascii, encode_component, build_launch_query, append_query,
}
use cooperative_systems_spac.Cmi5.Launch.RoundTrip.{
  IsSent, read_launch, build_launch_query-read_launch,
}

abbrev learner : Agent
learner = record { object_type = none; name = none; mbox = none; account = none }

abbrev params : LaunchParams
params = record {
  endpoint = ascii "https://s/lrs";
  fetch = ascii "https://s/fetch?token=a&b";
  actor = learner;
  registration = 7;
  activity_id = ascii "http://x/au 1%";
}

abbrev to_json : Agent → Option (List ℕ)
to_json agent = some (ascii "{\"objectType\":\"Agent\"}")

abbrev uuid_text : ℕ → List ℕ
uuid_text id = ascii "07"

params-IsSent : IsSent to_json uuid_text params (ascii "{\"objectType\":\"Agent\"}")
params-IsSent = record {
  written = refl;
  actor_bytes = omega arith;
  endpoint_bytes = omega arith;
  fetch_bytes = omega arith;
  activity_bytes = omega arith;
  registration_bytes = omega arith;
}

build_launch_query-read_launch_example :
    read_launch (build_launch_query to_json uuid_text params)
    ≡ some (
        (ascii "endpoint", ascii "https://s/lrs")
        ∷ (ascii "fetch", ascii "https://s/fetch?token=a&b")
        ∷ (ascii "actor", ascii "{\"objectType\":\"Agent\"}")
        ∷ (ascii "activityId", ascii "http://x/au 1%")
        ∷ (ascii "registration", ascii "07")
        ∷ [])
build_launch_query-read_launch_example =
    build_launch_query-read_launch to_json uuid_text params (ascii "{\"objectType\":\"Agent\"}")
      params-IsSent

reserved : encode_component (ascii "://a b") ≡ ascii "%3A%2F%2Fa%20b"
unfolding encode_component
reserved = refl

with_query : append_query (ascii "a.html?y=2") (ascii "x=1") ≡ ascii "a.html?y=2&x=1"
unfolding append_query
with_query = refl
