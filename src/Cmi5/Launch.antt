-- ===== src/Cmi5/Launch.antt =====
-- cmi5/src/launch.rs: the query that a launch adds to the address of a unit. A text is its bytes. The
-- actor's JSON, which may fail, and the text of a Uuid come from other crates and are parameters.
pub mod Reading
pub mod RoundTrip
mod Examples
use Prim.Native.Char.{code}
use Prim.Native.String
use cooperative_systems_spac.Prelude.{
  ℕ, ◌+◌, ◌-◌, ◌/◌, ◌%◌, Bool, true, false, ◌&&◌, ◌||◌, Option, none, some, List, [], ◌∷◌, ◌++◌,
  ◌==◌, nat_eq, ltb, leb, contains, if◌then◌else◌,
}
use cooperative_systems_spac.Cmi5.Statement.{Agent}

pub data LaunchMode : Type 0 where
  normal : LaunchMode
  browse : LaunchMode
  review : LaunchMode

abbrev pub is_creditable : LaunchMode → Bool
is_creditable normal = true
is_creditable browse = false
is_creditable review = false

-- The bytes of a text of ASCII.
abbrev pub ascii : String.String → List ℕ
ascii String.[] = []
ascii (String.◌∷◌ c s) = code c ∷ ascii s

pub record LaunchParams : Type 0 where
  pub endpoint : List ℕ
  pub fetch : List ℕ
  pub actor : Agent
  pub registration : ℕ
  pub activity_id : List ℕ

-- `n & 0x0f` of a byte's half
unfoldable pub hex_digit : ℕ → ℕ
hex_digit n = let d = n % 16 in if leb d 9 then 48 + d else 65 + (d - 10)

-- `b'A'..=b'Z' | b'a'..=b'z' | b'0'..=b'9' | b'-' | b'.' | b'_' | b'~'`
abbrev pub is_unreserved : ℕ → Bool
is_unreserved b =
    (leb 65 b && leb b 90)
    || (leb 97 b && leb b 122)
    || (leb 48 b && leb b 57)
    || b == 45
    || b == 46
    || b == 95
    || b == 126

unfoldable pub encode_component : List ℕ → List ℕ
unfolding hex_digit
encode_component [] = []
encode_component (b ∷ bs) =
    let rest = encode_component bs in
    if is_unreserved b then b ∷ rest else 37 ∷ hex_digit (b / 16) ∷ hex_digit (b % 16) ∷ rest

module _ (to_json : Agent → Option (List ℕ)) (uuid_text : ℕ → List ℕ) where
  unfoldable pub build_launch_query : LaunchParams → Option (List ℕ)
  unfolding encode_component
  build_launch_query params = elim (to_json params.actor) [
    | none ↦ none
    | some actor_json ↦ some (
        ascii "endpoint="
        ++ (encode_component params.endpoint
            ++ (ascii "&fetch="
                ++ (encode_component params.fetch
                    ++ (ascii "&actor="
                        ++ (encode_component actor_json
                            ++ (ascii "&activityId="
                                ++ (encode_component params.activity_id
                                    ++ (ascii "&registration="
                                        ++ encode_component (uuid_text params.registration))))))))))
  ]

unfoldable pub append_query : List ℕ → List ℕ → List ℕ
append_query au_url query =
    let sep = if contains au_url 63 then 38 else 63 in au_url ++ (sep ∷ query)
