-- ===== src/Server/Training/SingleUse.antt =====
-- server/src/cmi5.rs, `consume_fetch`: a fetch token is traded once.
use cooperative_systems_spac.Prelude.{
  ℕ, ◌≤◌, false, List, [], ◌∷◌, String, string_eq, err, ◌≡◌, refl, arith, Bool-cases, inl, inr,
}
use cooperative_systems_spac.Server.Training.{Cmi5Error, Cmi5LaunchToken, Lrs}
use cooperative_systems_spac.Server.Training.Launches.{
  is_claimable, claim_token, claim, consume_fetch,
}

-- Once a token has been claimed, it cannot be claimed at a later instant.
claim_token-closed :
    (fetch_hash session_hash : String) (now later : ℕ) (t : Cmi5LaunchToken)
    → now ≤ later
    → is_claimable fetch_hash later (claim_token fetch_hash session_hash now t) ≡ false
claim_token-closed fetch_hash session_hash now later t le =
    elim (Bool-cases (is_claimable fetch_hash now t)) [
      | inl e ↦ rw e ground arith
      | inr e ↦ rw e ground (arith, e, le)
    ]

claim-none :
    (fetch_hash first second : String) (now later : ℕ) (ts : List Cmi5LaunchToken)
    → now ≤ later
    → (claim fetch_hash second later (claim fetch_hash first now ts).0).1 ≡ 0
claim-none fetch_hash first second now later [] le = refl
claim-none fetch_hash first second now later (t ∷ ts) le =
    rw (claim_token-closed fetch_hash first now later t le)
      (claim-none fetch_hash first second now later ts le)

module _ {F64 : Type 0} (hash_token : ℕ → String) where
  -- A fetch token that has been presented, accepted or not, is refused from then on.
  pub consume_fetch-single_use :
      (fetch first second now later : ℕ) (t : Lrs F64)
      → now ≤ later
      → (consume_fetch hash_token fetch second later
          (consume_fetch hash_token fetch first now t).1).0
        ≡ err Cmi5Error.fetch_token_invalid
  unfolding consume_fetch
  consume_fetch-single_use fetch first second now later t le =
      rw
        (claim-none (hash_token fetch) (hash_token first) (hash_token second) now later t.tokens le)
        refl
