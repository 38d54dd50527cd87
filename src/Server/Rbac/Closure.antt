-- ===== src/Server/Rbac/Closure.antt =====
-- The inheritance closure of server/src/rbac.rs: its loop ends, and what it collects.
use cooperative_systems_spac.Prelude.{
  In_of_append, In-append, In_of_reverse_aux, In-reverse_aux_left, length-reverse_aux,
  length-append, ℕ, zero, suc, ◌+◌, ◌≤◌, ◌≡◌, refl, true, false, List, [], ◌∷◌, ◌++◌, arith, ◌==◌,
  nat_eq, ==_iff, ==_refl, inl, inr, ◌⊎◌, ◌↔◌, Bool-cases, contains, contains_iff, In, Any,
  unwrap_or, Assoc, lookup, length,
}
use mathlib.Core.List.{reverse}
use cooperative_systems_spac.Server.Rbac.{
  RoleGraph, parents, close, closure, closure_fuel, unseen_edges,
}

-- What a role reaches: itself, and whatever a role that it reaches inherits from.
pub data Reaches (g : RoleGraph) (roles : List ℕ) : ℕ → Type 0 where
  start : {r : ℕ} → In r roles → Reaches g roles r
  inherit : {r p : ℕ} → Reaches g roles r → In p (parents g r) → Reaches g roles p

unseen_edges_mono :
    (r : ℕ) (seen : List ℕ) (m : Assoc ℕ (List ℕ)) → unseen_edges (r ∷ seen) m ≤ unseen_edges seen m
unfolding unseen_edges
unseen_edges_mono r seen [] = omega arith
unseen_edges_mono r seen ((k, ps) ∷ m) = ground (arith, unseen_edges_mono r seen m)

-- Visiting a new role uses up its edges.
unseen_edges_visit :
    (r : ℕ) (seen : List ℕ) (m : Assoc ℕ (List ℕ))
    → contains seen r ≡ false
    → unseen_edges (r ∷ seen) m + length (unwrap_or [] (lookup r m)) ≤ unseen_edges seen m
unfolding unseen_edges
unseen_edges_visit r seen [] h = omega arith
unseen_edges_visit r seen ((k, ps) ∷ m) h = elim (Bool-cases (k == r)) [
  | inl same ↦
      let e : k ≡ r = (==_iff k r).0 same in
      let new : contains seen k ≡ false = rw e h in
      rw same (rw new (ground (arith, unseen_edges_mono r seen m, ==_refl r, e)))
  | inr other ↦ rw other (ground (arith, unseen_edges_visit r seen m h))
]

module _ (g : RoleGraph) where
  close_skip :
      (fuel r : ℕ) (stack seen : List ℕ)
      → contains seen r ≡ true
      → close g (suc fuel) (r ∷ stack) seen ≡ close g fuel stack seen
  unfolding close
  close_skip fuel r stack seen h = rw (h, close)

  close_visit :
      (fuel r : ℕ) (stack seen : List ℕ)
      → contains seen r ≡ false
      → close g (suc fuel) (r ∷ stack) seen
        ≡ close g fuel (reverse (parents g r) ++ stack) (r ∷ seen)
  unfolding close
  close_visit fuel r stack seen h = rw (h, close)

  -- What the stack takes on for a role are its parents.
  In_pushed :
      (r : ℕ) (stack : List ℕ) {x : ℕ}
      → In x (reverse (parents g r) ++ stack)
      → In x (parents g r) ⊎ In x stack
  In_pushed r stack m = elim (In_of_append (reverse (parents g r)) stack m) [
    | inr s ↦ inr s
    | inl p ↦ elim (In_of_reverse_aux (parents g r) [] p) [ inl q ↦ inl q | inr n ↦ elim n [ ] ]
  ]

  module _ (P : ℕ → Type 0) (inherited : (r p : ℕ) → P r → In p (parents g r) → P p) where
    close_sound :
        (fuel : ℕ) (stack seen : List ℕ)
        → ((x : ℕ) → In x stack → P x)
        → ((x : ℕ) → In x seen → P x)
        → (x : ℕ) → In x (close g fuel stack seen)
        → P x
    close_sound zero stack seen hs hn x m = hn x (unfold close in m)
    close_sound (suc fuel) [] seen hs hn x m = hn x (unfold close in m)
    close_sound (suc fuel) (r ∷ stack) seen hs hn x m = elim (Bool-cases (contains seen r)) [
      | inl old ↦
          close_sound fuel stack seen (λ y i. hs y (Any.tail i)) hn x
            (rw (close_skip fuel r stack seen old) at m)
      | inr new ↦
          close_sound fuel (reverse (parents g r) ++ stack) (r ∷ seen)
            (λ y i. elim (In_pushed r stack i) [
              | inl p ↦ inherited r y (hs r (Any.head refl)) p
              | inr s ↦ hs y (Any.tail s)
            ])
            (λ y i. first y i) x (rw (close_visit fuel r stack seen new) at m)
    ]
      where
        first : (y : ℕ) → In y (r ∷ seen) → P y
        first y (Any.head e) = rw (← e) (hs r (Any.head refl))
        first y (Any.tail t) = hn y t

  -- The parents of what has been seen are seen, or wait on the stack.
  abbrev Pending : List ℕ → List ℕ → Type 0
  Pending stack seen = (s p : ℕ) → In s seen → In p (parents g s) → In p seen ⊎ In p stack

  record IsClosed (stack seen result : List ℕ) : Type 0 where
    kept : (x : ℕ) → In x seen → In x result
    taken : (x : ℕ) → In x stack → In x result
    closed : (s p : ℕ) → In s result → In p (parents g s) → In p result

  Pending-skip :
      (r : ℕ) (stack seen : List ℕ)
      → contains seen r ≡ true
      → Pending (r ∷ stack) seen
      → Pending stack seen
  Pending-skip r stack seen old h s p i j = elim (h s p i j) [ inl q ↦ inl q | inr q ↦ settle q ]
    where
      settle : In p (r ∷ stack) → In p seen ⊎ In p stack
      settle (Any.head e) = inl (rw (← e) ((contains_iff seen r).0 old))
      settle (Any.tail t) = inr t

  Pending-visit :
      (r : ℕ) (stack seen : List ℕ)
      → Pending (r ∷ stack) seen
      → Pending (reverse (parents g r) ++ stack) (r ∷ seen)
  Pending-visit r stack seen h s p (Any.head e) j = inr (
      In-append (reverse (parents g r)) stack (inl (In-reverse_aux_left (parents g r) [] (rw e j))))
  Pending-visit r stack seen h s p (Any.tail i) j = elim (h s p i j) [
    | inl q ↦ inl (Any.tail q)
    | inr q ↦ settle q
  ]
    where
      settle : In p (r ∷ stack) → In p (r ∷ seen) ⊎ In p (reverse (parents g r) ++ stack)
      settle (Any.head e) = inl (Any.head e)
      settle (Any.tail t) = inr (In-append (reverse (parents g r)) stack (inr t))

  close_complete :
      (fuel : ℕ) (stack seen : List ℕ)
      → length stack + unseen_edges seen g.inherits ≤ fuel
      → Pending stack seen
      → IsClosed stack seen (close g fuel stack seen)
  close_complete fuel [] seen h pending = rw (close_nil fuel) (record {
    kept = λ x m. m;
    taken = λ x m. elim m [ ];
    closed = λ s p i j. elim (pending s p i j) [ inl q ↦ q | inr q ↦ elim q [ ] ];
  })
    where
      close_nil : (f : ℕ) → close g f [] seen ≡ seen
      close_nil zero = unfold close in refl
      close_nil (suc f) = unfold close in refl
  close_complete zero (r ∷ stack) seen h pending = absurd (omega arith)
  close_complete (suc fuel) (r ∷ stack) seen h pending = elim (Bool-cases (contains seen r)) [
    | inl old ↦
        let c =
          close_complete fuel stack seen (omega arith) (Pending-skip r stack seen old pending) in
        rw (close_skip fuel r stack seen old)
          (record { kept = c.kept; taken = λ x m. skipped c old x m; closed = c.closed })
    | inr new ↦
        let c =
          close_complete fuel (reverse (parents g r) ++ stack) (r ∷ seen)
            (omega (
              arith,
              unseen_edges_visit r seen g.inherits new,
              length-append (reverse (parents g r)) stack,
              length-reverse_aux (parents g r) [],
            ))
            (Pending-visit r stack seen pending) in
        rw (close_visit fuel r stack seen new) (record {
          kept = λ x m. c.kept x (Any.tail m);
          taken = λ x m. visited c x m;
          closed = c.closed;
        })
  ]
    where
      skipped :
          {result : List ℕ}
          → IsClosed stack seen result
          → contains seen r ≡ true
          → (x : ℕ) → In x (r ∷ stack)
          → In x result
      skipped c old x (Any.head e) = c.kept x (rw (← e) ((contains_iff seen r).0 old))
      skipped c old x (Any.tail t) = c.taken x t

      visited :
          {result : List ℕ}
          → IsClosed (reverse (parents g r) ++ stack) (r ∷ seen) result
          → (x : ℕ) → In x (r ∷ stack)
          → In x result
      visited c x (Any.head e) = c.kept x (Any.head e)
      visited c x (Any.tail t) = c.taken x (In-append (reverse (parents g r)) stack (inr t))

  -- The closure holds exactly the roles that are reached, cycles or not.
  pub closure_iff : (roles : List ℕ) (r : ℕ) → In r (closure g roles) ↔ Reaches g roles r
  unfolding closure
  closure_iff roles r = (sound, λ m. complete m)
    where
      sound : In r (closure g roles) → Reaches g roles r
      sound =
          close_sound (Reaches g roles) (λ _ _ h i. Reaches.inherit h i) (closure_fuel g roles)
            (reverse roles) []
            (λ x m. elim (In_of_reverse_aux roles [] m) [
              | inl i ↦ Reaches.start i
              | inr n ↦ elim n [ ]
            ])
            (λ x m. elim m [ ]) r

      c : IsClosed (reverse roles) [] (closure g roles)
      c =
          close_complete (closure_fuel g roles) (reverse roles) []
            (omega (arith, length-reverse_aux roles [])) (λ s p m i. elim m [ ])

      complete : {x : ℕ} → Reaches g roles x → In x (closure g roles)
      complete (Reaches.start i) = c.taken _ (In-reverse_aux_left roles [] i)
      complete (Reaches.inherit h i) = c.closed _ _ (complete h) i
