-- ===== src/Cmi5/Conformance/Text.antt =====
-- cmi5/src/conformance.rs: `is_iri`, and the test of a blank url.
use Prim.Native.Char.{code}
use cooperative_systems_spac.Prelude.{
  Bool, not, ◌&&◌, String, ◌==◌, nat_eq, is_whitespace, has_no_chars, any_char, trim,
}

-- `trim().is_empty()`
unfoldable pub is_blank : String → Bool
is_blank s = has_no_chars (trim s)

unfoldable pub is_iri : String → Bool
is_iri s =
    let t = trim s in
    not (has_no_chars t) && any_char (λ c. code c == 58) t && not (any_char is_whitespace t)
