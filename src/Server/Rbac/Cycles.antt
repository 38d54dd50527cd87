-- ===== src/Server/Rbac/Cycles.antt =====
-- `has_cycle` of server/src/rbac.rs: a search in depth over the inheritance with three marks. The map
-- of the marks is what each part returns, and the keys come in the order of the association list. A
-- call of `dfs` takes fuel: Found shows that one more than the number of the keys is enough.
pub mod Loops
mod Marks
pub mod Search
pub mod Found
use cooperative_systems_spac.Prelude.{
  ℕ, zero, suc, ◌+◌, Bool, true, false, Option, none, some, List, [], ◌∷◌, map, ◌==◌, nat_eq,
  contains, Map, insert, unwrap_or, length, if◌then◌else◌,
}
use cooperative_systems_spac.Server.Rbac.{RoleGraph, parents}

pub data Mark : Type 0 where
  white : Mark
  grey : Mark
  black : Mark

-- `mark.get(&n).copied().unwrap_or(M::White)`
abbrev pub mark_of : Map ℕ Mark → ℕ → Mark
mark_of mark n = unwrap_or Mark.white (mark n)

abbrev pub keys : RoleGraph → List ℕ
keys g = map (λ (e : ℕ × List ℕ). e.0) g.inherits

-- The loop over the parents of a role; `search` is the call of `dfs`.
unfoldable pub visit :
    (ℕ → Map ℕ Mark → Bool × Map ℕ Mark) → List ℕ → Map ℕ Mark → Bool × Map ℕ Mark
visit search [] mark = (false, mark)
visit search (p ∷ ps) mark = elim (mark_of mark p) [
  | Mark.grey ↦ (true, mark)
  | Mark.white ↦
      let found = search p mark in
      let rest = visit search ps found.1 in elim found.0 [ true ↦ (true, found.1) | false ↦ rest ]
  | Mark.black ↦ visit search ps mark
]

-- What `dfs` makes of the loop's result: a role without a loop through it ends as black.
abbrev pub finish : ℕ → Bool × Map ℕ Mark → Bool × Map ℕ Mark
finish n (true, mark) = (true, mark)
finish n (false, mark) = (false, insert n Mark.black mark)

unfoldable pub dfs : RoleGraph → ℕ → ℕ → Map ℕ Mark → Bool × Map ℕ Mark
unfolding visit
dfs g zero n mark = (false, mark)
dfs g (suc fuel) n mark = finish n (visit (dfs g fuel) (parents g n) (insert n Mark.grey mark))

-- The loop over the keys.
unfoldable pub scan : RoleGraph → ℕ → List ℕ → Map ℕ Mark → Bool
unfolding dfs
scan g fuel [] mark = false
scan g fuel (n ∷ ns) mark = elim (mark_of mark n) [
  | Mark.white ↦
      let found = dfs g fuel n mark in
      let rest = scan g fuel ns found.1 in elim found.0 [ true ↦ true | false ↦ rest ]
  | _ ↦ scan g fuel ns mark
]

-- Every key is marked white.
abbrev pub unmarked : RoleGraph → Map ℕ Mark
unmarked g n = if contains (keys g) n then some Mark.white else none

unfoldable pub has_cycle : RoleGraph → Bool
unfolding scan
has_cycle g = scan g (suc (length (keys g))) (keys g) (unmarked g)
