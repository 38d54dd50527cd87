-- ===== src/Cmi5/Launch/Reading.antt =====
-- What a reader makes of the query of an address, after RFC 3986: pairs of a name and a value, with `&`
-- between them and `=` within, and `%` with two digits to base sixteen for a byte of a value.
use cooperative_systems_spac.Prelude.{
  ℕ, zero, suc, ◌+◌, ◌*◌, ◌-◌, true, false, ◌&&◌, Option, none, some, List, [], ◌∷◌, ◌==◌, nat_eq,
  leb, if◌then◌else◌,
}

-- `to_digit(16)`
abbrev pub hex_value : ℕ → Option ℕ
hex_value b =
    if leb 48 b && leb b 57
    then some (b - 48)
    else if leb 65 b && leb b 70
    then some (b - 55)
    else if leb 97 b && leb b 102
    then some (b - 87)
    else none

-- What has been read of an escape.
pub data Escape : Type 0 where
  outside : Escape
  percent : Escape
  high : ℕ → Escape

abbrev pub push : ℕ → Option (List ℕ × List ℕ) → Option (List ℕ × List ℕ)
push b none = none
push b (some (v, rest)) = some (b ∷ v, rest)

-- A value, and what is left from the next `&` on.
unfoldable pub read_value : Escape → List ℕ → Option (List ℕ × List ℕ)
read_value outside [] = some ([], [])
read_value outside (b ∷ bs) = elim (b == 38) [
  | true ↦ some ([], b ∷ bs)
  | false ↦ elim (b == 37) [ true ↦ read_value percent bs | false ↦ push b (read_value outside bs) ]
]
read_value percent [] = none
read_value percent (b ∷ bs) = elim (hex_value b) [ none ↦ none | some h ↦ read_value (high h) bs ]
read_value (high h) [] = none
read_value (high h) (b ∷ bs) = elim (hex_value b) [
  | none ↦ none
  | some l ↦ push (h * 16 + l) (read_value outside bs)
]

-- A name, and what is left after its `=`.
unfoldable pub read_name : List ℕ → Option (List ℕ × List ℕ)
read_name [] = none
read_name (b ∷ bs) = elim (b == 61) [ true ↦ some ([], bs) | false ↦ push b (read_name bs) ]

abbrev pub Pairs : Type 0
Pairs = List (List ℕ × List ℕ)

abbrev pub add_pair : List ℕ → List ℕ → Option Pairs → Option Pairs
add_pair n v none = none
add_pair n v (some ps) = some ((n, v) ∷ ps)

-- At most so many pairs.
unfoldable pub read_query : ℕ → List ℕ → Option Pairs
unfolding read_name
read_query zero bs = none
read_query (suc most) bs = elim (read_name bs) [
  | none ↦ none
  | some (name, after) ↦ elim (read_value outside after) [
    | none ↦ none
    | some (value, []) ↦ some ((name, value) ∷ [])
    | some (value, _ ∷ rest) ↦ add_pair name value (read_query most rest)
  ]
]

-- What follows the first `?` of an address.
unfoldable pub query_of : List ℕ → Option (List ℕ)
query_of [] = none
query_of (b ∷ bs) = elim (b == 63) [ true ↦ some bs | false ↦ query_of bs ]
