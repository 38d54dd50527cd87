-- ===== src/Cmi5/Launch/RoundTrip.antt =====
-- cmi5/src/launch.rs: a launch query is read back as what it was made of.
use cooperative_systems_spac.Prelude.{
  ℕ, suc, ◌+◌, ◌*◌, ◌/◌, ◌%◌, ◌<◌, ◌≡◌, refl, ap, sym, ◌∙◌, true, false, Option, none, some, List,
  [], ◌∷◌, ◌++◌, ◌==◌, nat_eq, contains, All, Bool-cases, inl, inr, Option-cases, is_some, arith,
}
use mathlib.Core.List.{append-nil}
use cooperative_systems_spac.Cmi5.Statement.{Agent}
use cooperative_systems_spac.Cmi5.Launch.{
  LaunchParams, ascii, hex_digit, is_unreserved, encode_component, build_launch_query, append_query,
}
use cooperative_systems_spac.Cmi5.Launch.Reading.{
  hex_value, outside, high, push, read_value, read_name, read_query, query_of, Pairs, add_pair,
}

abbrev pub AreBytes : List ℕ → Type 0
AreBytes bs = All (λ (b : ℕ). b < 256) bs

hex_value-hex_digit : (n : ℕ) → n < 16 → hex_value (hex_digit n) ≡ some n
unfolding hex_digit
hex_value-hex_digit n h = ground arith

-- What follows a value: nothing, or `&` and more.
abbrev Ends : List ℕ → Type 0
Ends [] = Unit
Ends (b ∷ bs) = b ≡ 38

read_value-plain :
    (b : ℕ) (bs : List ℕ)
    → is_unreserved b ≡ true
    → read_value outside (b ∷ bs) ≡ push b (read_value outside bs)
unfolding read_value
read_value-plain b bs h =
    let no_end : (b == 38) ≡ false = ground (arith, h) in
    let no_escape : (b == 37) ≡ false = ground (arith, h) in rw (no_end, no_escape, read_value) refl

read_value-high :
    (h b l : ℕ) (bs : List ℕ)
    → hex_value b ≡ some l
    → read_value (high h) (b ∷ bs) ≡ push (h * 16 + l) (read_value outside bs)
unfolding read_value
read_value-high h b l bs e = rw (e, read_value) refl

read_value-percent :
    (b h : ℕ) (bs : List ℕ)
    → hex_value b ≡ some h
    → read_value outside (37 ∷ b ∷ bs) ≡ read_value (high h) bs
unfolding read_value
read_value-percent b h bs e = rw (e, read_value) refl

read_value-escape :
    (b : ℕ) (bs : List ℕ)
    → b < 256
    → read_value outside (37 ∷ hex_digit (b / 16) ∷ hex_digit (b % 16) ∷ bs)
      ≡ push b (read_value outside bs)
read_value-escape b bs h =
    let whole : b / 16 * 16 + b % 16 ≡ b = omega arith in
    read_value-percent (hex_digit (b / 16)) (b / 16) (hex_digit (b % 16) ∷ bs)
      (hex_value-hex_digit (b / 16) (omega arith))
    ∙ read_value-high (b / 16) (hex_digit (b % 16)) (b % 16) bs
        (hex_value-hex_digit (b % 16) (omega arith))
    ∙ ap (λ (n : ℕ). push n (read_value outside bs)) whole

nothing_read : (rest : List ℕ) → Ends rest → read_value outside rest ≡ some ([], rest)
unfolding read_value
nothing_read [] e = refl
nothing_read (b ∷ bs) e = rw e refl

read_value-encode_component :
    (v rest : List ℕ)
    → AreBytes v
    → Ends rest
    → read_value outside (encode_component v ++ rest) ≡ some (v, rest)
unfolding encode_component
read_value-encode_component [] rest h e = nothing_read rest e
read_value-encode_component (b ∷ v) rest h e = elim (Bool-cases (is_unreserved b)) [
  | inl plain ↦ rw plain (
      read_value-plain b (encode_component v ++ rest) plain
      ∙ ap (push b) (read_value-encode_component v rest h.1 e))
  | inr escaped ↦ rw escaped (
      read_value-escape b (encode_component v ++ rest) h.0
      ∙ ap (push b) (read_value-encode_component v rest h.1 e))
]

read_value-all : (v : List ℕ) → AreBytes v → read_value outside (encode_component v) ≡ some (v, [])
read_value-all v h =
    ap (read_value outside) (sym (append-nil (encode_component v)))
    ∙ read_value-encode_component v [] h tt

-- A name without `=`.
abbrev IsName : List ℕ → Type 0
IsName name = contains name 61 ≡ false

read_name-append :
    (name rest : List ℕ) → IsName name → read_name (name ++ (61 ∷ rest)) ≡ some (name, rest)
unfolding read_name
read_name-append [] rest h = refl
read_name-append (b ∷ bs) rest h =
    let here : (b == 61) ≡ false = ground (arith, h) in
    rw (here, read_name-append bs rest (ground (arith, h)), read_name) refl

module _ (most : ℕ) (name v : List ℕ) (h : IsName name) (bytes : AreBytes v) where
  read_query-pair :
      (rest : List ℕ)
      → read_query (suc most) (name ++ (61 ∷ (encode_component v ++ (38 ∷ rest))))
        ≡ add_pair name v (read_query most rest)
  unfolding read_query
  read_query-pair rest =
      rw
        (
          read_name-append name (encode_component v ++ (38 ∷ rest)) h,
          read_value-encode_component v (38 ∷ rest) bytes refl,
          read_query,
        )
        refl

  read_query-last :
      read_query (suc most) (name ++ (61 ∷ encode_component v)) ≡ some ((name, v) ∷ [])
  unfolding read_query
  read_query-last =
      rw (read_name-append name (encode_component v) h, read_value-all v bytes, read_query) refl

-- The values that a query carries are bytes.
pub record IsSent (to_json : Agent → Option (List ℕ)) (uuid_text : ℕ → List ℕ) (p : LaunchParams)
    (actor : List ℕ) : Type 0 where
  pub written : to_json p.actor ≡ some actor
  pub actor_bytes : AreBytes actor
  pub endpoint_bytes : AreBytes p.endpoint
  pub fetch_bytes : AreBytes p.fetch
  pub activity_bytes : AreBytes p.activity_id
  pub registration_bytes : AreBytes (uuid_text p.registration)

-- What a reader has of a launch.
abbrev pub read_launch : Option (List ℕ) → Option Pairs
read_launch none = none
read_launch (some query) = read_query 5 query

-- The query holds the five parameters that cmi5 asks for, each once and in this order, and a reader has
-- each value as it was sent, where the actor can be written and all values are bytes.
pub build_launch_query-read_launch :
    (to_json : Agent → Option (List ℕ)) (uuid_text : ℕ → List ℕ) (p : LaunchParams) (actor : List ℕ)
    → IsSent to_json uuid_text p actor
    → read_launch (build_launch_query to_json uuid_text p)
      ≡ some (
          (ascii "endpoint", p.endpoint)
          ∷ (ascii "fetch", p.fetch)
          ∷ (ascii "actor", actor)
          ∷ (ascii "activityId", p.activity_id)
          ∷ (ascii "registration", uuid_text p.registration)
          ∷ [])
unfolding build_launch_query
build_launch_query-read_launch to_json uuid_text p actor s =
    rw (s.written, read_launch)
      (read_query-pair 4 (ascii "endpoint") p.endpoint refl s.endpoint_bytes _
        ∙ ap (add_pair (ascii "endpoint") p.endpoint) (
            read_query-pair 3 (ascii "fetch") p.fetch refl s.fetch_bytes _
            ∙ ap (add_pair (ascii "fetch") p.fetch) (
                read_query-pair 2 (ascii "actor") actor refl s.actor_bytes _
                ∙ ap (add_pair (ascii "actor") actor) (
                    read_query-pair 1 (ascii "activityId") p.activity_id refl s.activity_bytes _
                    ∙ ap (add_pair (ascii "activityId") p.activity_id) (
                        read_query-last 0 (ascii "registration") (uuid_text p.registration) refl
                          s.registration_bytes)))))

query_of-append :
    (url rest : List ℕ)
    → query_of (url ++ rest)
      ≡ (elim (query_of url) [ none ↦ query_of rest | some own ↦ some (own ++ rest) ])
unfolding query_of
query_of-append [] rest = refl
query_of-append (b ∷ bs) rest = elim (Bool-cases (b == 63)) [
  | inl e ↦ rw (e, query_of) refl
  | inr e ↦ rw (e, query_of) (query_of-append bs rest)
]

contains-query_of : (url : List ℕ) → contains url 63 ≡ is_some (query_of url)
unfolding query_of
contains-query_of [] = refl
contains-query_of (b ∷ bs) = elim (Bool-cases (b == 63)) [
  | inl e ↦ rw (e, query_of) refl
  | inr e ↦ rw (e, query_of) (contains-query_of bs)
]

-- The query of an address without one is what is added; one that is there stands before it.
pub query_of-append_query :
    (au_url query : List ℕ)
    → query_of (append_query au_url query)
      ≡ some (elim (query_of au_url) [ none ↦ query | some own ↦ own ++ (38 ∷ query) ])
unfolding append_query
query_of-append_query au_url query = elim (Option-cases (query_of au_url)) [
  | inl e ↦
      rw (contains-query_of au_url, e, query_of-append au_url (63 ∷ query), e)
        (unfold query_of in refl)
  | inr (own, e) ↦ rw (contains-query_of au_url, e, query_of-append au_url (38 ∷ query), e) refl
]
