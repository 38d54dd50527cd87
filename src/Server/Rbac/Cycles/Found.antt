-- ===== src/Server/Rbac/Cycles/Found.antt =====
-- `has_cycle` of server/src/rbac.rs finds a loop exactly where there is one.
use cooperative_systems_spac.Prelude.{
  ℕ, suc, ◌<◌, ◌≡◌, ◌≢◌, refl, Bool, true, false, List, [], ◌∷◌, nat_eq, arith, inl, inr, ◌↔◌, In,
  In-cons, Any, Map, length,
}
use cooperative_systems_spac.Server.Rbac.{RoleGraph}
use cooperative_systems_spac.Server.Rbac.Cycles.{
  Mark, mark_of, keys, dfs, scan, unmarked, has_cycle,
}
use cooperative_systems_spac.Server.Rbac.Cycles.Loops.{Chain, Grounded, Grounded-no_loop}
use cooperative_systems_spac.Server.Rbac.Cycles.Marks.{
  is_white, is_grey, is_black, mark_case, whites, whites-le-length, whites_mono, Follows, In-keys,
}
use cooperative_systems_spac.Server.Rbac.Cycles.Search.{Parent, BlacksEnd, Visited, dfs_lem}

module _ (g : RoleGraph) where
  -- Without grey roles the loop over the keys finds a loop, or no way up from a key goes on for ever.
  abbrev Scanned : List ℕ → Bool → Type 0
  Scanned ns true = (x : ℕ) × Chain (Parent g) x x
  Scanned ns false = (x : ℕ) → In x ns → Grounded (Parent g) x

  scan_lem :
      (fuel : ℕ) (ns : List ℕ) (m : Map ℕ Mark)
      → whites m (keys g) < fuel
      → ((x : ℕ) → mark_of m x ≢ Mark.grey)
      → BlacksEnd g m
      → Scanned ns (scan g fuel ns m)
  unfolding scan
  scan_lem fuel [] m enough greys b = λ x i. elim i [ ]
  scan_lem fuel (n ∷ ns) m enough greys b = elim (mark_case (mark_of m n)) [
    | is_grey e ↦ absurd (greys n e)
    | is_black e ↦ rw (e, scan) (with_first _ (b n e) (scan_lem fuel ns m enough greys b))
    | is_white e ↦
        rw (e, scan)
          (go (dfs g fuel n m) (dfs_lem g fuel n m enough e (λ x h. absurd (greys x h)) b)
            (λ m' f b'.
              scan_lem fuel ns m' (omega (arith, whites_mono m m' (keys g) f))
                (λ x h. greys x (f.no_more_greys x h)) b'))
  ]
    where
      with_first : (r : Bool) → Grounded (Parent g) n → Scanned ns r → Scanned (n ∷ ns) r
      with_first true e s = s
      with_first false e s = λ x i. elim (In-cons i) [ inl same ↦ rw (← same) e | inr t ↦ s x t ]

      go :
          (r : Bool × Map ℕ Mark)
          → Visited g (n ∷ []) m r
          → ((m' : Map ℕ Mark) → Follows m m' → BlacksEnd g m' → Scanned ns (scan g fuel ns m'))
          → Scanned (n ∷ ns) (elim r.0 [ true ↦ true | false ↦ scan g fuel ns r.1 ])
      go (true, m') v k = v
      go (false, m') v k = with_first _ (v.1 n (v.0 n (Any.head refl))) (k m' v.2 v.1)

  starts : {x y : ℕ} → Chain (Parent g) x y → In x (keys g)
  starts (Chain.one e) = In-keys g _ _ e
  starts (Chain.more e c) = In-keys g _ _ e

  Scanned-has_cycle :
      (r : Bool) → Scanned (keys g) r → (r ≡ true) ↔ ((x : ℕ) × Chain (Parent g) x x)
  Scanned-has_cycle true s = (λ h. s, λ c. refl)
  Scanned-has_cycle false s = (λ h. cc, λ c. absurd (Grounded-no_loop (s c.0 (starts c.1)) c.1))

  -- `has_cycle` answers, and says yes exactly where some role inherits, over one or more steps, from
  -- itself.
  pub has_cycle_iff : (has_cycle g ≡ true) ↔ ((x : ℕ) × Chain (Parent g) x x)
  unfolding has_cycle
  has_cycle_iff = Scanned-has_cycle _ (
      scan_lem (suc (length (keys g))) (keys g) (unmarked g)
        (omega (arith, whites-le-length (unmarked g) (keys g))) (λ x h. ground (arith, h))
        (λ x h. ground (arith, h)))
