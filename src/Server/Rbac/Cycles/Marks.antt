-- ===== src/Server/Rbac/Cycles/Marks.antt =====
-- The marks of `has_cycle` in server/src/rbac.rs: how many roles are white, and what a search does to them.
use cooperative_systems_spac.Prelude.{
  ℕ, suc, ◌≤◌, ◌<◌, ◌≡◌, refl, List, [], ◌∷◌, ◌==◌, nat_eq, ==_iff, arith, Bool-cases, inl, inr, In,
  Any, Map, insert, length, if◌then◌else◌, map, Assoc, lookup, unwrap_or,
}
use cooperative_systems_spac.Server.Rbac.{RoleGraph, parents}
use cooperative_systems_spac.Server.Rbac.Cycles.{Mark, mark_of, keys}

-- What a mark can be.
pub data MarkCase (k : Mark) : Type 0 where
  is_white : k ≡ Mark.white → MarkCase k
  is_grey : k ≡ Mark.grey → MarkCase k
  is_black : k ≡ Mark.black → MarkCase k

pub mark_case : (k : Mark) → MarkCase k
mark_case Mark.white = is_white refl
mark_case Mark.grey = is_grey refl
mark_case Mark.black = is_black refl

mark_of-insert :
    (n : ℕ) (k : Mark) (m : Map ℕ Mark) (x : ℕ)
    → mark_of (insert n k m) x ≡ (if n == x then k else mark_of m x)
mark_of-insert n k m x = ground arith

-- How many of the roles are still white.
unfoldable pub whites : Map ℕ Mark → List ℕ → ℕ
whites m [] = 0
whites m (n ∷ ns) = elim (mark_of m n) [ Mark.white ↦ suc (whites m ns) | _ ↦ whites m ns ]

pub whites-le-length : (m : Map ℕ Mark) (ns : List ℕ) → whites m ns ≤ length ns
unfolding whites
whites-le-length m [] = omega arith
whites-le-length m (n ∷ ns) = ground (arith, whites-le-length m ns)

-- The second marking follows the first in a search that ends with no more grey roles.
pub record Follows (m m' : Map ℕ Mark) : Type 0 where
  pub no_more_greys : (x : ℕ) → mark_of m' x ≡ Mark.grey → mark_of m x ≡ Mark.grey
  pub keeps_blacks : (x : ℕ) → mark_of m x ≡ Mark.black → mark_of m' x ≡ Mark.black
  pub no_more_whites : (x : ℕ) → mark_of m' x ≡ Mark.white → mark_of m x ≡ Mark.white

pub Follows-refl : (m : Map ℕ Mark) → Follows m m
Follows-refl m = record {
  no_more_greys = λ x h. h;
  keeps_blacks = λ x h. h;
  no_more_whites = λ x h. h;
}

pub Follows-trans : {a b c : Map ℕ Mark} → Follows a b → Follows b c → Follows a c
Follows-trans f g = record {
  no_more_greys = λ x h. f.no_more_greys x (g.no_more_greys x h);
  keeps_blacks = λ x h. g.keeps_blacks x (f.keeps_blacks x h);
  no_more_whites = λ x h. f.no_more_whites x (g.no_more_whites x h);
}

pub whites_mono : (m m' : Map ℕ Mark) (ns : List ℕ) → Follows m m' → whites m' ns ≤ whites m ns
unfolding whites
whites_mono m m' [] f = omega arith
whites_mono m m' (n ∷ ns) f = ground (arith, whites_mono m m' ns f, f.no_more_whites n)

whites-insert-le :
    (n : ℕ) (m : Map ℕ Mark) (ns : List ℕ) → whites (insert n Mark.grey m) ns ≤ whites m ns
unfolding whites
whites-insert-le n m [] = omega arith
whites-insert-le n m (k ∷ ns) = ground (arith, whites-insert-le n m ns)

-- A role that turns grey is one white role less.
pub whites-insert-lt :
    (n : ℕ) (m : Map ℕ Mark) (ns : List ℕ)
    → In n ns
    → mark_of m n ≡ Mark.white
    → whites (insert n Mark.grey m) ns < whites m ns
unfolding whites
whites-insert-lt n m [] i h = elim i [ ]
whites-insert-lt n m (k ∷ ns) (Any.head e) h =
    let w : mark_of m k ≡ Mark.white = rw e h in
    let here : mark_of (insert n Mark.grey m) k ≡ Mark.grey = ground (arith, e) in
    ground (arith, whites-insert-le n m ns, w, here)
whites-insert-lt n m (k ∷ ns) (Any.tail i) h = ground (arith, whites-insert-lt n m ns i h)

-- Only keys have parents.
pub In-keys : (g : RoleGraph) (r p : ℕ) → In p (parents g r) → In r (keys g)
In-keys g r p = go g.inherits
  where
    go :
        (m : Assoc ℕ (List ℕ))
        → In p (unwrap_or [] (lookup r m))
        → In r (map (λ (e : ℕ × List ℕ). e.0) m)
    go [] i = elim i [ ]
    go ((k, ps) ∷ m) i = elim (Bool-cases (k == r)) [
      | inl same ↦ Any.head ((==_iff k r).0 same)
      | inr other ↦ Any.tail (go m (rw other at i))
    ]
