-- ===== src/Server/Rbac/Cycles/Search.antt =====
-- `dfs` of server/src/rbac.rs: its search of a role ends, with a loop found or with no way up from the
-- role that goes on for ever.
use cooperative_systems_spac.Prelude.{
  ℕ, zero, suc, ◌<◌, ◌≡◌, refl, Bool, true, false, List, [], ◌∷◌, ◌==◌, nat_eq, ==_iff, arith,
  Bool-cases, inl, inr, ◌⊎◌, In, In-cons, Any, Map, insert,
}
use cooperative_systems_spac.Server.Rbac.{RoleGraph, parents}
use cooperative_systems_spac.Server.Rbac.Cycles.{Mark, mark_of, keys, visit, finish, dfs}
use cooperative_systems_spac.Server.Rbac.Cycles.Loops.{Chain, Grounded, Chain-then}
use cooperative_systems_spac.Server.Rbac.Cycles.Marks.{
  is_white, is_grey, is_black, mark_case, whites, whites-insert-lt, whites_mono, Follows,
  Follows-refl, Follows-trans, In-keys,
}

module _ (g : RoleGraph) where
  abbrev pub Parent : ℕ → ℕ → Type 0
  Parent r p = In p (parents g r)

  -- Every way up from a black role ends.
  abbrev pub BlacksEnd : Map ℕ Mark → Type 0
  BlacksEnd m = (x : ℕ) → mark_of m x ≡ Mark.black → Grounded Parent x

  abbrev pub GreysLeadTo : ℕ → Map ℕ Mark → Type 0
  GreysLeadTo p m = (x : ℕ) → mark_of m x ≡ Mark.grey → Chain Parent x p

  -- A search that found a loop, or left the roles `ns` black.
  abbrev pub Visited : List ℕ → Map ℕ Mark → Bool × Map ℕ Mark → Type 0
  Visited ns m (true, m') = (x : ℕ) × Chain Parent x x
  Visited ns m (false, m') =
      ((x : ℕ) → In x ns → mark_of m' x ≡ Mark.black) × BlacksEnd m' × Follows m m'

  Visited-then :
      (p : ℕ) (ps : List ℕ) {m m' : Map ℕ Mark} (r : Bool × Map ℕ Mark)
      → mark_of m' p ≡ Mark.black
      → Follows m m'
      → Visited ps m' r
      → Visited (p ∷ ps) m r
  Visited-then p ps (true, m2) b f v = v
  Visited-then p ps (false, m2) b f v = (first, v.1, Follows-trans f v.2)
    where
      first : (x : ℕ) → In x (p ∷ ps) → mark_of m2 x ≡ Mark.black
      first x (Any.head e) = rw (← e) (v.2.keeps_blacks p b)
      first x (Any.tail i) = v.0 x i

  -- The loop over the parents, where each call of the search does what it should.
  visit_lem :
      (call : ℕ → Map ℕ Mark → Bool × Map ℕ Mark) (m0 : Map ℕ Mark) (ps : List ℕ)
      → ((p : ℕ) (m : Map ℕ Mark)
          → In p ps
          → mark_of m p ≡ Mark.white
          → Follows m0 m
          → BlacksEnd m
          → Visited (p ∷ []) m (call p m))
      → ((x p : ℕ) → In p ps → mark_of m0 x ≡ Mark.grey → Chain Parent x p)
      → (m : Map ℕ Mark) → Follows m0 m
      → BlacksEnd m
      → Visited ps m (visit call ps m)
  unfolding visit
  visit_lem call m0 [] searched greys m f b = ((λ x i. elim i [ ]), b, Follows-refl m)
  visit_lem call m0 (p ∷ ps) searched greys m f b =
      let rest : (m' : Map ℕ Mark)
          → Follows m0 m'
          → BlacksEnd m'
          → Visited ps m' (visit call ps m') =
        λ m' f' b'.
          visit_lem call m0 ps (λ q k i. searched q k (Any.tail i))
            (λ x q i. greys x q (Any.tail i)) m' f' b' in
      elim (mark_case (mark_of m p)) [
        | is_grey e ↦ rw (e, visit) (p, greys p p (Any.head refl) (f.no_more_greys p e))
        | is_black e ↦ rw (e, visit) (Visited-then p ps _ e (Follows-refl m) (rest m f b))
        | is_white e ↦ rw (e, visit) (go (call p m) (searched p m (Any.head refl) e f b) rest)
      ]
    where
      go :
          (r : Bool × Map ℕ Mark)
          → Visited (p ∷ []) m r
          → ((m' : Map ℕ Mark) → Follows m0 m' → BlacksEnd m' → Visited ps m' (visit call ps m'))
          → Visited (p ∷ ps) m (elim r.0 [ true ↦ (true, r.1) | false ↦ visit call ps r.1 ])
      go (true, m') v k = v
      go (false, m') v k =
          Visited-then p ps _ (v.0 p (Any.head refl)) v.2 (k m' (Follows-trans f v.2) v.1)

  -- A role that has been searched without a loop ends as black.
  finish_lem :
      (n : ℕ) (m : Map ℕ Mark) (r : Bool × Map ℕ Mark)
      → mark_of m n ≡ Mark.white
      → Visited (parents g n) (insert n Mark.grey m) r
      → Visited (n ∷ []) m (finish n r)
  finish_lem n m (true, m') w v = v
  finish_lem n m (false, m') w v = (λ x i. turned x (In-cons i), ends, follows)
    where
      turned : (x : ℕ) → (n ≡ x) ⊎ In x [] → mark_of (insert n Mark.black m') x ≡ Mark.black
      turned x (inl e) = ground (arith, e)
      turned x (inr i) = elim i [ ]

      ends : BlacksEnd (insert n Mark.black m')
      ends x h = elim (Bool-cases (n == x)) [
        | inl same ↦
            let e : n ≡ x = (==_iff n x).0 same in
            rw (← e) (Grounded.grounded n (λ p i. v.1 p (v.0 p i)))
        | inr other ↦ v.1 x (rw other at h)
      ]

      follows : Follows m (insert n Mark.black m')
      follows = record {
        no_more_greys = λ x h. ground (arith, v.2.no_more_greys x);
        keeps_blacks = λ x h. ground (arith, v.2.keeps_blacks x);
        no_more_whites = λ x h. ground (arith, v.2.no_more_whites x);
      }

  -- With fuel for the white keys, a search of a white role does what it should.
  pub dfs_lem :
      (fuel n : ℕ) (m : Map ℕ Mark)
      → whites m (keys g) < fuel
      → mark_of m n ≡ Mark.white
      → GreysLeadTo n m
      → BlacksEnd m
      → Visited (n ∷ []) m (dfs g fuel n m)
  unfolding dfs
  dfs_lem zero n m enough w greys b = elim enough [ ]
  dfs_lem (suc fuel) n m enough w greys b = finish_lem n m _ w (
      visit_lem (dfs g fuel) (insert n Mark.grey m) (parents g n)
        (λ p m' i w' f b'.
          dfs_lem fuel p m'
            (omega (
              arith,
              whites-insert-lt n m (keys g) (In-keys g n p i) w,
              whites_mono (insert n Mark.grey m) m' (keys g) f,
            ))
            w' (λ x h. on_the_way x p i (f.no_more_greys x h)) b')
        (λ x p i h. on_the_way x p i h) (insert n Mark.grey m) (Follows-refl _)
        (λ x h. b x (ground arith)))
    where
      on_the_way :
          (x p : ℕ)
          → In p (parents g n)
          → mark_of (insert n Mark.grey m) x ≡ Mark.grey
          → Chain Parent x p
      on_the_way x p i h = elim (Bool-cases (n == x)) [
        | inl same ↦ let e : n ≡ x = (==_iff n x).0 same in rw (← e) (Chain.one i)
        | inr other ↦ Chain-then (greys x (rw other at h)) i
      ]
