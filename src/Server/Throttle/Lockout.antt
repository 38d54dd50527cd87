-- ===== src/Server/Throttle/Lockout.antt =====
-- server/src/throttle.rs: when logins that fail lock an identifier out.
use cooperative_systems_spac.Prelude.{
  ℕ, suc, ◌+◌, ◌*◌, ◌≤◌, ◌<◌, ◌≡◌, refl, ap, ◌∙◌, Bool, false, ◌&&◌, none, some, List, [], ◌∷◌, All,
  String, ltb, leb, if◌then◌else◌, string_eq, ==_refl, length, arith,
}
use cooperative_systems_spac.Server.Throttle.{
  ThrottleEntry, Attempts, from_secs, remaining_secs, allowed, blocked, is_kept,
  cleanup_old_entries, check_entry, check_attempt, failed, record_failed_attempt,
  record_successful_attempt, login, failed_logins, logins,
}

-- The entry that counted failures leave.
abbrev counted : ℕ → ℕ → ℕ → ℕ → ThrottleEntry
counted max_attempts lockout_seconds n t = record {
  attempts = n;
  last_attempt = t;
  locked_until = if leb max_attempts n then some (t + from_secs lockout_seconds) else none;
}

-- From each attempt to the next, less than twice the lockout goes by; the latest attempt first.
abbrev pub AreClose : ℕ → List ℕ → Type 0
AreClose lockout_seconds [] = Unit
AreClose lockout_seconds (t ∷ []) = Unit
AreClose lockout_seconds (t ∷ u ∷ earlier) =
    (t < u + from_secs (lockout_seconds * 2)) × AreClose lockout_seconds (u ∷ earlier)

module _ (id : String) (max_attempts lockout_seconds : ℕ) (m : Attempts) where
  -- A check finds the entry of failures that have not reached the maximum as it was, if it is young.
  check_attempt-young :
      (n t now : ℕ) (attempts : Attempts)
      → n < max_attempts
      → now < t + from_secs (lockout_seconds * 2)
      → 0 < lockout_seconds
      → attempts id ≡ some (counted max_attempts lockout_seconds n t)
      → let after = check_attempt id max_attempts lockout_seconds now attempts in
        (after.0 id ≡ some (counted max_attempts lockout_seconds n t)) × (after.1 ≡ allowed)
  unfolding check_attempt cleanup_old_entries is_kept check_entry
  check_attempt-young n t now attempts few young positive e =
      ground (arith, e, few, young, positive)

  check_attempt-absent :
      (now : ℕ) (attempts : Attempts)
      → attempts id ≡ none
      → let after = check_attempt id max_attempts lockout_seconds now attempts in
        (after.0 id ≡ none) × (after.1 ≡ allowed)
  unfolding check_attempt cleanup_old_entries is_kept check_entry
  check_attempt-absent now attempts e = ground (arith, e)

  check_attempt-counted :
      (n t now : ℕ) (attempts : Attempts)
      → attempts id ≡ some (counted max_attempts lockout_seconds n t)
      → (check_attempt id max_attempts lockout_seconds now attempts).1 ≡ (
          if leb max_attempts n && ltb now (t + from_secs lockout_seconds)
          then blocked (remaining_secs (t + from_secs lockout_seconds) now)
          else allowed)
  unfolding check_attempt cleanup_old_entries is_kept check_entry
  check_attempt-counted n t now attempts e = ground (arith, e)

  record_failed_attempt-first :
      (now : ℕ) (attempts : Attempts)
      → attempts id ≡ none
      → record_failed_attempt id max_attempts lockout_seconds now attempts id
        ≡ some (counted max_attempts lockout_seconds 1 now)
  unfolding record_failed_attempt failed
  record_failed_attempt-first now attempts e = ground (arith, e, ==_refl id)

  record_failed_attempt-counted :
      (n t now : ℕ) (attempts : Attempts)
      → n < max_attempts
      → suc n < 4294967296
      → attempts id ≡ some (counted max_attempts lockout_seconds n t)
      → record_failed_attempt id max_attempts lockout_seconds now attempts id
        ≡ some (counted max_attempts lockout_seconds (suc n) now)
  unfolding record_failed_attempt failed
  record_failed_attempt-counted n t now attempts few small e =
      ground (arith, e, few, small, ==_refl id)

  -- A login that the check lets through and that fails is counted.
  login-failed :
      (now : ℕ) (attempts : Attempts)
      → (check_attempt id max_attempts lockout_seconds now attempts).1 ≡ allowed
      → (login id max_attempts lockout_seconds false now attempts).0
        ≡ record_failed_attempt id max_attempts lockout_seconds now
            (check_attempt id max_attempts lockout_seconds now attempts).0
  unfolding login
  login-failed now attempts h = rw (h, login) refl

  -- What a login says is what its check says.
  login-verdict :
      (fits : Bool) (now : ℕ) (attempts : Attempts)
      → (login id max_attempts lockout_seconds fits now attempts).1
        ≡ (check_attempt id max_attempts lockout_seconds now attempts).1
  unfolding login
  login-verdict fits now attempts = ground arith

  failed_logins-counted :
      (t : ℕ) (earlier : List ℕ)
      → 0 < lockout_seconds
      → max_attempts < 4294967296
      → length earlier < max_attempts
      → AreClose lockout_seconds (t ∷ earlier)
      → failed_logins id max_attempts lockout_seconds
          (t ∷ earlier)
          (record_successful_attempt id m)
          id
        ≡ some (counted max_attempts lockout_seconds (suc (length earlier)) t)
  unfolding failed_logins
  failed_logins-counted t [] positive small few close =
      let before = record_successful_attempt id m in
      let gone : before id ≡ none =
        unfold record_successful_attempt in ground (arith, ==_refl id) in
      let checked = check_attempt-absent t before gone in
      ap (λ (a : Attempts). a id) (login-failed t before checked.1)
      ∙ record_failed_attempt-first t (check_attempt id max_attempts lockout_seconds t before).0
          checked.0
  failed_logins-counted t (u ∷ earlier) positive small few (near, close) =
      let before =
        failed_logins id max_attempts lockout_seconds (u ∷ earlier)
          (record_successful_attempt id m) in
      let counted_so_far =
        failed_logins-counted u earlier positive small (omega (arith, few)) close in
      let n = suc (length earlier) in
      let checked = check_attempt-young n u t before few near positive counted_so_far in
      ap (λ (a : Attempts). a id) (login-failed t before checked.1)
      ∙ record_failed_attempt-counted n u t
          (check_attempt id max_attempts lockout_seconds t before).0 few (omega (arith, few, small))
          checked.0

  -- After a success, or from the start, and failing logins of which each comes less than twice the
  -- lockout after the one before and which do not pass the maximum, a login at `now` is blocked, with
  -- the seconds that are left, exactly when the failures have reached the maximum and the lockout that
  -- began with the latest is not over; whether its password fits or not. Otherwise it is let through.
  pub failed_logins-login :
      (fits : Bool) (t now : ℕ) (earlier : List ℕ)
      → 0 < lockout_seconds
      → max_attempts < 4294967296
      → length earlier < max_attempts
      → AreClose lockout_seconds (t ∷ earlier)
      → (login id max_attempts lockout_seconds fits now (
          failed_logins id max_attempts lockout_seconds
            (t ∷ earlier)
            (record_successful_attempt id m))).1
        ≡ (if leb max_attempts (suc (length earlier)) && ltb now (t + from_secs lockout_seconds)
            then blocked (remaining_secs (t + from_secs lockout_seconds) now)
            else allowed)
  failed_logins-login fits t now earlier positive small few close =
      let before =
        failed_logins id max_attempts lockout_seconds (t ∷ earlier)
          (record_successful_attempt id m) in
      login-verdict fits now before
      ∙ check_attempt-counted (suc (length earlier)) t now before
          (failed_logins-counted t earlier positive small few close)

  -- A blocked login leaves the entry as it is.
  login-locked :
      (fits : Bool) (n t now : ℕ) (attempts : Attempts)
      → max_attempts ≤ n
      → now < t + from_secs lockout_seconds
      → attempts id ≡ some (counted max_attempts lockout_seconds n t)
      → (login id max_attempts lockout_seconds fits now attempts).0 id
        ≡ some (counted max_attempts lockout_seconds n t)
  unfolding login check_attempt cleanup_old_entries is_kept check_entry
  login-locked fits n t now attempts many early e = ground (arith, e, many, early)

  logins-locked :
      (n t : ℕ) (tries : List (Bool × ℕ)) (attempts : Attempts)
      → max_attempts ≤ n
      → All (λ (x : Bool × ℕ). x.1 < t + from_secs lockout_seconds) tries
      → attempts id ≡ some (counted max_attempts lockout_seconds n t)
      → logins id max_attempts lockout_seconds tries attempts id
        ≡ some (counted max_attempts lockout_seconds n t)
  unfolding logins
  logins-locked n t [] attempts many early e = e
  logins-locked n t ((fits, u) ∷ tries) attempts many (now, early) e =
      login-locked fits n t u (logins id max_attempts lockout_seconds tries attempts) many now
        (logins-locked n t tries attempts many early e)

  -- Once such failing logins have reached the maximum, no login is let through until the lockout that
  -- began with the latest of them is over, and none moves its end: whatever logins come between, with
  -- the right password too, each is answered with the seconds that are left of that one lockout.
  pub logins-login :
      (fits : Bool) (t now : ℕ) (earlier : List ℕ) (tries : List (Bool × ℕ))
      → 0 < lockout_seconds
      → max_attempts < 4294967296
      → suc (length earlier) ≡ max_attempts
      → AreClose lockout_seconds (t ∷ earlier)
      → All (λ (x : Bool × ℕ). x.1 < t + from_secs lockout_seconds) tries
      → now < t + from_secs lockout_seconds
      → (login id max_attempts lockout_seconds fits now (
          logins id max_attempts lockout_seconds tries (
            failed_logins id max_attempts lockout_seconds
              (t ∷ earlier)
              (record_successful_attempt id m)))).1
        ≡ blocked (remaining_secs (t + from_secs lockout_seconds) now)
  logins-login fits t now earlier tries positive small full close early open_still =
      let locked =
        failed_logins id max_attempts lockout_seconds (t ∷ earlier)
          (record_successful_attempt id m) in
      let n = suc (length earlier) in
      let entry = failed_logins-counted t earlier positive small (omega (arith, full)) close in
      let stays = logins-locked n t tries locked (omega (arith, full)) early entry in
      let answer =
        login-verdict fits now (logins id max_attempts lockout_seconds tries locked)
        ∙ check_attempt-counted n t now (logins id max_attempts lockout_seconds tries locked)
            stays in
      ground (arith, answer, full, open_still)
