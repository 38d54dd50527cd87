-- ===== src/Cmi5/Manifest/RoundTrip/Leaves.antt =====
-- cmi5/src/manifest.rs: the leaves of a written course read back.
use Prim.Native.String.{◌++◌ as push_str}
use mathlib.Core.List.{append-nil, append_assoc}
use cooperative_systems_spac.Prelude.{
  ℕ, zero, suc, ◌≤◌, some, List, [], ◌∷◌, ◌++◌, String, string_eq, ==_refl, ◌≡◌, refl, length, ok,
  Result-cases, inl, inr, arith,
}
use cooperative_systems_spac.Cmi5.Manifest.{LangString}
use cooperative_systems_spac.Cmi5.Manifest.Events.{Event, Entities, resolve, parse_text}
use cooperative_systems_spac.Cmi5.Manifest.Parse.{parse_langstrings, parse_objective_refs}
use cooperative_systems_spac.Cmi5.Manifest.Write.{
  Piece, assemble, write_text, write_each_langstring, write_each_ref,
}

module _ (entities : Entities) (pieces : String → List Piece) where
  parse_text-pieces :
      (tag before s : String) (ps : List Piece) (rest : List Event)
      → assemble entities before ps ≡ some s
      → parse_text entities tag before (write_text pieces ps (Event.end_tag tag ∷ rest))
        ≡ ok (s, rest)
  unfolding parse_text
  parse_text-pieces tag before s [] rest h =
      let e : before ≡ s = ground (arith, h) in rw (==_refl tag, e, parse_text) refl
  parse_text-pieces tag before s (Piece.literal t ∷ ps) rest h =
      parse_text-pieces tag (push_str before t) s ps rest h
  parse_text-pieces tag before s (Piece.reference name ∷ ps) rest h =
      elim (Result-cases (resolve entities name)) [
        | inl (x, e) ↦ absurd (let g = rw (e, assemble) at h in cc)
        | inr (c, e) ↦
            let g = rw (e, assemble) at h in
            rw (e, parse_text) (parse_text-pieces tag (push_str before c) s ps rest g)
      ]

-- What the XML library promises: the pieces in which it delivers a text are the text.
abbrev pub Delivers : Entities → (String → List Piece) → Type 0
Delivers entities pieces = (s : String) → assemble entities "" (pieces s) ≡ some s

module _ (entities : Entities) (pieces : String → List Piece)
    (delivers : Delivers entities pieces) where
  pub parse_text-write_text :
      (tag s : String) (rest : List Event)
      → parse_text entities tag "" (write_text pieces (pieces s) (Event.end_tag tag ∷ rest))
        ≡ ok (s, rest)
  parse_text-write_text tag s rest =
      parse_text-pieces entities pieces tag "" s (pieces s) rest (delivers s)

  pub parse_langstrings-write :
      (fuel : ℕ) (tag : String) (out ss : List LangString) (rest : List Event)
      → suc (length ss) ≤ fuel
      → parse_langstrings entities fuel tag out
          (write_each_langstring pieces ss (Event.end_tag tag ∷ rest))
        ≡ ok (out ++ ss, rest)
  unfolding parse_langstrings
  parse_langstrings-write zero tag out ss rest h = absurd (omega (arith, h))
  parse_langstrings-write (suc fuel) tag out [] rest h =
      rw (==_refl tag, append-nil, parse_langstrings) refl
  parse_langstrings-write (suc fuel) tag out (s ∷ ss) rest h =
      rw
        (
          parse_text-write_text "langstring" s.value
              (write_each_langstring pieces ss (Event.end_tag tag ∷ rest)),
          parse_langstrings-write fuel tag (out ++ (s ∷ [])) ss rest (omega (arith, h)),
          append_assoc,
          parse_langstrings,
        )
        refl

pub parse_objective_refs-write :
    (out ids : List String) (rest : List Event)
    → parse_objective_refs out (write_each_ref ids (Event.end_tag "objectives" ∷ rest))
      ≡ ok (out ++ ids, rest)
unfolding parse_objective_refs
parse_objective_refs-write out [] rest = rw append-nil refl
parse_objective_refs-write out (id ∷ ids) rest =
    rw (parse_objective_refs-write (out ++ (id ∷ [])) ids rest, append_assoc) refl
