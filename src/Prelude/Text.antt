-- ===== src/Prelude/Text.antt =====
-- What the program uses of Rust's `str` and `char`.
use Prim.Native.String.{String, ◌∷◌, []}
use Prim.Native.Char.{Char, code}
use mathlib.Core.Bool.{Bool, true, false, ◌&&◌, ◌||◌}
use cooperative_systems_spac.Prelude.Tests.{leb, ◌==◌, nat_eq, if◌then◌else◌}

-- `char::is_whitespace`: Unicode's `White_Space`
abbrev pub is_whitespace : Char → Bool
is_whitespace c =
    let n = code c in
    (leb 9 n && leb n 13)
    || n == 32
    || n == 133
    || n == 160
    || n == 5760
    || (leb 8192 n && leb n 8202)
    || n == 8232
    || n == 8233
    || n == 8239
    || n == 8287
    || n == 12288

-- `str::is_empty`
abbrev pub has_no_chars : String → Bool
has_no_chars [] = true
has_no_chars (_ ∷ _) = false

-- `chars().any(p)`
abbrev pub any_char : (Char → Bool) → String → Bool
any_char p [] = false
any_char p (c ∷ s) = p c || any_char p s

abbrev pub trim_start : String → String
trim_start [] = []
trim_start (c ∷ s) = let rest = trim_start s in if is_whitespace c then rest else c ∷ s

abbrev pub trim_end : String → String
trim_end [] = []
trim_end (c ∷ s) =
    let rest = trim_end s in if is_whitespace c && has_no_chars rest then [] else c ∷ rest

-- `str::trim`
abbrev pub trim : String → String
trim s = trim_end (trim_start s)
