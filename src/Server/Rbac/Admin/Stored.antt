-- ===== src/Server/Rbac/Admin/Stored.antt =====
-- The tables of roles of server/src/database.rs: which rows a write leaves, and that the graph loaded from
-- them has every edge of the table.
use cooperative_systems_spac.Prelude.{
  In_of_append, In-append, ℕ, ◌≡◌, refl, Bool, true, false, not, none, List, [], ◌∷◌, ◌++◌, map,
  String, ◌==◌, nat_eq, string_eq, pair_eq, ==_refl, Eq, any, any_of_In, find-none, ap, find,
  contains, Bool-cases, inl, inr, ◌⊎◌, In, In-cons, Any, arith, unwrap_or, Assoc, lookup, upsert,
  dedup, if◌then◌else◌,
}
use mathlib.Core.List.{foldl}
use cooperative_systems_spac.Server.Rbac.{RoleGraph, RoleRow, add_edge, from_rows, parents}
use cooperative_systems_spac.Server.Rbac.Admin.Tables.{insert_row}

module _ {ℓ} {A : Type ℓ} ⦃eq : Eq A⦄ where
  In_of_insert_row :
      (rows : List A) (n : A) {x : A} → In x (insert_row rows n) → In x rows ⊎ (n ≡ x)
  In_of_insert_row rows n {x} m = elim (Bool-cases (contains rows n)) [
    | inl t ↦ inl (rw t at m)
    | inr f ↦ last (In_of_append rows (n ∷ []) (rw f at m))
  ]
    where
      last : In x rows ⊎ In x (n ∷ []) → In x rows ⊎ (n ≡ x)
      last (inl i) = inl i
      last (inr (Any.head e)) = inr e
      last (inr (Any.tail i)) = elim i [ ]

  -- What the writes of rows leave was there or is written.
  pub In_of_inserted :
      (new rows : List A) {x : A} → In x (foldl insert_row rows new) → In x rows ⊎ In x new
  In_of_inserted [] rows m = inl m
  In_of_inserted (n ∷ new) rows {x} m = go (In_of_inserted new (insert_row rows n) m)
    where
      first : In x rows ⊎ (n ≡ x) → In x rows ⊎ In x (n ∷ new)
      first (inl i) = inl i
      first (inr e) = inr (Any.head e)

      go : In x (insert_row rows n) ⊎ In x new → In x rows ⊎ In x (n ∷ new)
      go (inl i) = first (In_of_insert_row rows n i)
      go (inr i) = inr (Any.tail i)

  In_of_dedup_step :
      (y : A) (d : List A) {x : A}
      → In x (elim d [ [] ↦ y ∷ [] | z ∷ zs ↦ if y == z then z ∷ zs else y ∷ z ∷ zs ])
      → In x (y ∷ d)
  In_of_dedup_step y [] m = m
  In_of_dedup_step y (z ∷ zs) m = elim (Bool-cases (y == z)) [
    | inl t ↦ Any.tail (rw t at m)
    | inr f ↦ rw f at m
  ]

  pub In_of_dedup : (xs : List A) {x : A} → In x (dedup xs) → In x xs
  In_of_dedup [] m = m
  In_of_dedup (y ∷ ys) {x} m =
      go (In-cons (In_of_dedup_step y (dedup ys) m)) (λ i. In_of_dedup ys i)
    where
      go : (y ≡ x) ⊎ In x (dedup ys) → (In x (dedup ys) → In x ys) → In x (y ∷ ys)
      go (inl e) rest = Any.head e
      go (inr i) rest = Any.tail (rest i)

-- The parents of a role after another is added to those of `k`.
parents_upsert :
    (r k : ℕ) (f : List ℕ → List ℕ) (m : Assoc ℕ (List ℕ))
    → unwrap_or [] (lookup r (upsert k [] f m))
      ≡ (if k == r then f (unwrap_or [] (lookup r m)) else unwrap_or [] (lookup r m))
parents_upsert r k f [] = ground arith
parents_upsert r k f ((j, v) ∷ m) = ground (arith, parents_upsert r k f m)

parents-add_edge :
    (g : RoleGraph) (r k p : ℕ)
    → parents (add_edge g (k, p)) r ≡ (if k == r then parents g r ++ p ∷ [] else parents g r)
unfolding add_edge
parents-add_edge g r k p = parents_upsert r k (λ ps. ps ++ p ∷ []) g.inherits

-- An edge that is added is there, and stays when others are added.
In_parents-add_edge :
    (g : RoleGraph) (e : ℕ × ℕ) (r p : ℕ)
    → (e ≡ (r, p)) ⊎ In p (parents g r)
    → In p (parents (add_edge g e) r)
In_parents-add_edge g e r p (inl same) = rw same (
    rw (parents-add_edge g r r p, ==_refl r)
      (In-append (parents g r) (p ∷ []) (inr (Any.head refl))))
In_parents-add_edge g (k, q) r p (inr i) = rw (parents-add_edge g r k q) (go (k == r))
  where
    go : (b : Bool) → In p (if b then parents g r ++ q ∷ [] else parents g r)
    go true = In-append (parents g r) (q ∷ []) (inl i)
    go false = i

In_parents-add_edges :
    (edges : List (ℕ × ℕ)) (g : RoleGraph) (r p : ℕ)
    → In (r, p) edges ⊎ In p (parents g r)
    → In p (parents (foldl add_edge g edges) r)
In_parents-add_edges [] g r p (inl i) = elim i [ ]
In_parents-add_edges [] g r p (inr i) = i
In_parents-add_edges (e ∷ es) g r p (inl i) =
    In_parents-add_edges es (add_edge g e) r p (go (In-cons i))
  where
    go : (e ≡ (r, p)) ⊎ In (r, p) es → In (r, p) es ⊎ In p (parents (add_edge g e) r)
    go (inl same) = inr (In_parents-add_edge g e r p (inl same))
    go (inr j) = inl j
In_parents-add_edges (e ∷ es) g r p (inr i) =
    In_parents-add_edges es (add_edge g e) r p (inr (In_parents-add_edge g e r p (inr i)))

-- The graph of the rows has each edge that is a row.
pub In_parents-from_rows :
    (roles : List RoleRow) (perms : List (ℕ × String)) (edges : List (ℕ × ℕ)) (r p : ℕ)
    → In (r, p) edges
    → In p (parents (from_rows roles perms edges) r)
unfolding from_rows
In_parents-from_rows roles perms edges r p i = In_parents-add_edges edges _ r p (inl i)

-- Rows under one key.
pub In_of_paired {ℓ} :
    {A : Type ℓ} (id : ℕ) (xs : List A) {r : ℕ} {x : A}
    → In {A = ℕ × A} (r, x) (map (λ (y : A). (id, y)) xs)
    → (id ≡ r) × In x xs
In_of_paired id [] m = elim m [ ]
In_of_paired id (y ∷ ys) (Any.head e) = (ap (λ p. p.0) e, Any.head (ap (λ p. p.1) e))
In_of_paired id (y ∷ ys) (Any.tail m) = let h = In_of_paired id ys m in (h.0, Any.tail h.1)

-- Where no element fails a test, each passes it.
pub passes {ℓ} :
    {A : Type ℓ} (valid : A → Bool) (xs : List A)
    → find (λ (x : A). not (valid x)) xs ≡ none
    → (x : A) → In x xs
    → valid x ≡ true
passes {A = A} valid xs h x m = elim (Bool-cases (valid x)) [
  | inl t ↦ t
  | inr f ↦
      let found : any (λ (y : A). not (valid y)) xs ≡ true =
        any_of_In (λ (y : A). not (valid y)) xs m (rw f refl) in
      cc (found, find-none (λ (y : A). not (valid y)) xs h)
]
