-- ===== src/Server/Throttle/Examples.antt =====
-- Failed logins of one address, with a maximum of three and a lockout of a minute.
use cooperative_systems_spac.Prelude.{◌≡◌, arith, true, false, [], ◌∷◌, empty_map, string_eq}
use cooperative_systems_spac.Server.Throttle.{
  blocked, from_secs, login, failed_logins, logins, record_successful_attempt,
}
use cooperative_systems_spac.Server.Throttle.Lockout.{failed_logins-login, logins-login}

failed_logins-login_example :
    (login "a@b" 3 60 true (from_secs 50) (
      failed_logins "a@b" 3 60
        (from_secs 30 ∷ from_secs 20 ∷ from_secs 10 ∷ [])
        (record_successful_attempt "a@b" empty_map))).1
    ≡ blocked 40
failed_logins-login_example =
    failed_logins-login "a@b" 3 60 empty_map true (from_secs 30) (from_secs 50)
      (from_secs 20 ∷ from_secs 10 ∷ []) (omega arith) (omega arith) (omega arith)
      (omega arith, (omega arith, tt))

-- The right password and another failure while it lasts.
logins-login_example :
    (login "a@b" 3 60 true (from_secs 50) (
      logins "a@b" 3 60 ((true, from_secs 45) ∷ (false, from_secs 40) ∷ []) (
        failed_logins "a@b" 3 60
          (from_secs 30 ∷ from_secs 20 ∷ from_secs 10 ∷ [])
          (record_successful_attempt "a@b" empty_map)))).1
    ≡ blocked 40
logins-login_example =
    logins-login "a@b" 3 60 empty_map true (from_secs 30) (from_secs 50)
      (from_secs 20 ∷ from_secs 10 ∷ []) ((true, from_secs 45) ∷ (false, from_secs 40) ∷ [])
      (omega arith) (omega arith) (omega arith) (omega arith, (omega arith, tt))
      (omega arith, (omega arith, tt)) (omega arith)
