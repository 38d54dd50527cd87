-- ===== src/Server/Throttle.antt =====
-- server/src/throttle.rs, `RegistrationThrottleService`: lockouts after failed attempts. Instants are
-- nanoseconds, and `duration_since` of an earlier instant is 0, as subtraction on ℕ.
pub mod Lockout
mod Examples
use cooperative_systems_spac.Prelude.{
  ℕ, suc, ◌+◌, ◌-◌, ◌*◌, ◌/◌, ◌%◌, ◌≤◌, ◌<◌, ◌≡◌, ◌↔◌, refl, Bool, true, false, not, ◌&&◌, Option,
  none, some, List, [], ◌∷◌, String, ltb, leb, if◌then◌else◌, ◌==◌, string_eq, ==_refl, Map,
  empty_map, insert, remove, retain, or_insert, unwrap_or, is_some, is_some_and, length, arith, inl,
  inr, Bool-cases, Option-cases,
}

pub record ThrottleEntry : Type 0 where
  pub attempts : ℕ
  pub last_attempt : ℕ
  pub locked_until : Option ℕ

-- The map behind the mutex.
abbrev pub Attempts : Type 0
Attempts = Map String ThrottleEntry

-- `Duration::from_secs`, `as_secs`, and u32.
abbrev pub from_secs : ℕ → ℕ
from_secs s = s * 1000000000

abbrev pub to_u32 : ℕ → ℕ
to_u32 n = n % 4294967296

abbrev pub remaining_secs : ℕ → ℕ → ℕ
remaining_secs locked_until now = to_u32 ((locked_until - now) / 1000000000)

-- `Result<(), u32>`
pub data Verdict : Type 0 where
  allowed : Verdict
  blocked : ℕ → Verdict

unfoldable pub is_kept : ℕ → ℕ → ThrottleEntry → Bool
is_kept now lockout_seconds entry = elim entry.locked_until [
  | none ↦ ltb (now - entry.last_attempt) (from_secs (lockout_seconds * 2))
  | some until ↦ ltb now until
]

unfoldable pub cleanup_old_entries : ℕ → ℕ → Attempts → Attempts
unfolding is_kept
cleanup_old_entries now lockout_seconds m = retain (λ _ entry. is_kept now lockout_seconds entry) m

-- The part after the clean-up, for the entry that is there.
unfoldable pub check_entry : String → ℕ → ℕ → ℕ → ThrottleEntry → Attempts → Attempts × Verdict
check_entry id max_attempts lockout_seconds now entry m =
    if is_some_and (λ until. ltb now until) entry.locked_until
    then (m, blocked (remaining_secs (unwrap_or 0 entry.locked_until) now))
    else (let until = entry.last_attempt + from_secs lockout_seconds in
        if leb max_attempts entry.attempts
        then (if ltb now until
            then (
              insert id (record entry { locked_until = some until }) m,
              blocked (remaining_secs until now),
            )
            else (m, allowed))
        else (m, allowed))

unfoldable pub check_attempt : String → ℕ → ℕ → ℕ → Attempts → Attempts × Verdict
unfolding cleanup_old_entries check_entry
check_attempt id max_attempts lockout_seconds now m =
    let clean = cleanup_old_entries now lockout_seconds m in
    elim (clean id) [
      | none ↦ (clean, allowed)
      | some entry ↦ check_entry id max_attempts lockout_seconds now entry clean
    ]

abbrev pub fresh : ℕ → ThrottleEntry
fresh now = record { attempts = 0; last_attempt = now; locked_until = none }

unfoldable pub failed : ℕ → ℕ → ℕ → ThrottleEntry → ThrottleEntry
failed max_attempts lockout_seconds now entry =
    let attempts = to_u32 (suc entry.attempts) in
    record {
      attempts = attempts;
      last_attempt = now;
      locked_until =
          if leb max_attempts attempts
          then some (now + from_secs lockout_seconds)
          else entry.locked_until;
    }

unfoldable pub record_failed_attempt : String → ℕ → ℕ → ℕ → Attempts → Attempts
unfolding failed
record_failed_attempt id max_attempts lockout_seconds now m =
    insert id (failed max_attempts lockout_seconds now (unwrap_or (fresh now) (m id))) m

unfoldable pub record_successful_attempt : String → Attempts → Attempts
record_successful_attempt id m = remove id m

unfoldable pub get_attempt_count : String → Attempts → ℕ
get_attempt_count id m = elim (m id) [ none ↦ 0 | some entry ↦ entry.attempts ]

unfoldable pub get_remaining_lockout : String → ℕ → Attempts → Option ℕ
get_remaining_lockout id now m = elim (m id) [
  | none ↦ none
  | some entry ↦ elim entry.locked_until [
    | none ↦ none
    | some until ↦ if ltb now until then some (remaining_secs until now) else none
  ]
]

-- What `login` does to the throttle, where that is enabled: the check, and what the answer of
-- `authenticate_user` does, which is not asked for where the check blocks.
unfoldable pub login : String → ℕ → ℕ → Bool → ℕ → Attempts → Attempts × Verdict
unfolding check_attempt record_failed_attempt record_successful_attempt
login id max_attempts lockout_seconds authenticated now m =
    let (checked, verdict) = check_attempt id max_attempts lockout_seconds now m in
    elim verdict [
      | blocked seconds ↦ (checked, blocked seconds)
      | allowed ↦
          if authenticated
          then (record_successful_attempt id checked, allowed)
          else (record_failed_attempt id max_attempts lockout_seconds now checked, allowed)
    ]

-- Logins of one identifier that fail, the latest first.
unfoldable pub failed_logins : String → ℕ → ℕ → List ℕ → Attempts → Attempts
unfolding login
failed_logins id max_attempts lockout_seconds [] m = m
failed_logins id max_attempts lockout_seconds (t ∷ earlier) m =
    (login id max_attempts lockout_seconds false t
      (failed_logins id max_attempts lockout_seconds earlier m)).0

-- Logins of one identifier with passwords that fit or not, the latest first.
unfoldable pub logins : String → ℕ → ℕ → List (Bool × ℕ) → Attempts → Attempts
unfolding login
logins id max_attempts lockout_seconds [] m = m
logins id max_attempts lockout_seconds ((fits, t) ∷ earlier) m =
    (login id max_attempts lockout_seconds fits t
      (logins id max_attempts lockout_seconds earlier m)).0
