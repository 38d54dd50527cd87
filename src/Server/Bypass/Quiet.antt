-- ===== src/Server/Bypass/Quiet.antt =====
-- server/src/bypass.rs: a sweep records transitions, so what it has recorded it does not record again.
use cooperative_systems_spac.Prelude.{
  ℕ, ◌≡◌, refl, sym, ap, ◌∙◌, Bool, false, Option, none, List, [], ◌∷◌, ℤ, nat_eq, ◌==◌, ==_refl,
  ==_sym, arith, All, any,
}
use cooperative_systems_spac.CssLib.Bypass.{is_silent, classify_liveness}
use cooperative_systems_spac.Server.Bypass.{
  LivenessEvent, BoundModule, Recorded, is_silent_event, previously_silent, write,
  seconds_since_seen, event_of, sweep, sweep_once,
}

-- Whether a module counts as silent now.
abbrev pub silent_now : ℤ → ℕ → BoundModule → Bool
silent_now silence_secs now m = is_silent (seconds_since_seen now m) silence_secs

-- Each module stands in one row.
abbrev pub AreDistinct : List BoundModule → Type 0
AreDistinct [] = Unit
AreDistinct (m ∷ ms) =
    (any (λ (x : BoundModule). x.module_id == m.module_id) ms ≡ false) × AreDistinct ms

module _ (silence_secs : ℤ) (now : ℕ) where
  -- Nothing is written exactly when the record says what the module is.
  event_of-none :
      (recorded : Recorded) (m : BoundModule)
      → previously_silent recorded m.module_id ≡ silent_now silence_secs now m
      → event_of silence_secs now recorded m ≡ none
  unfolding event_of classify_liveness
  event_of-none recorded m h = ground arith

  -- A row's event brings the record to what the module is.
  record-event :
      (recorded log : Recorded) (m : BoundModule)
      → log m.module_id ≡ recorded m.module_id
      → previously_silent (write m.module_id (event_of silence_secs now recorded m) log) m.module_id
        ≡ silent_now silence_secs now m
  unfolding event_of classify_liveness
  record-event recorded log m h = ground (arith, ==_refl m.module_id)

  -- The rows of other modules leave a module's record alone.
  sweep-other :
      (recorded : Recorded) (modules : List BoundModule) (log : Recorded) (id : ℕ)
      → any (λ (x : BoundModule). x.module_id == id) modules ≡ false
      → (sweep silence_secs now recorded modules log).0 id ≡ log id
  unfolding sweep
  sweep-other recorded [] log id h = refl
  sweep-other recorded (m ∷ modules) log id h =
      let e = event_of silence_secs now recorded m in
      let next : Recorded = write m.module_id e log in
      let rest = sweep-other recorded modules next id (ground arith) in
      let kept : next id ≡ log id = ground arith in rest ∙ kept

  agrees_insert :
      (log recorded : Recorded) (id : ℕ) (e : Option LivenessEvent) (modules : List BoundModule)
      → any (λ (x : BoundModule). x.module_id == id) modules ≡ false
      → All (λ (m : BoundModule). log m.module_id ≡ recorded m.module_id) modules
      → All (λ (m : BoundModule). write id e log m.module_id ≡ recorded m.module_id) modules
  agrees_insert log recorded id e [] h a = tt
  agrees_insert log recorded id e (x ∷ modules) h a =
      let apart : (id == x.module_id) ≡ false = ground (arith, ==_sym id x.module_id) in
      (ground (arith, a.0), agrees_insert log recorded id e modules (ground arith) a.1)

  sweep-records :
      (recorded : Recorded) (modules : List BoundModule) (log : Recorded)
      → AreDistinct modules
      → All (λ (m : BoundModule). log m.module_id ≡ recorded m.module_id) modules
      → All
          (λ (m : BoundModule).
            previously_silent (sweep silence_secs now recorded modules log).0 m.module_id
            ≡ silent_now silence_secs now m)
          modules
  unfolding sweep
  sweep-records recorded [] log d a = tt
  sweep-records recorded (m ∷ modules) log d a =
      let e = event_of silence_secs now recorded m in
      let next : Recorded = write m.module_id e log in
      let kept = sweep-other recorded modules next m.module_id d.0 in
      (
        ap is_silent_event kept ∙ record-event recorded log m a.0,
        sweep-records recorded modules next d.1
            (agrees_insert log recorded m.module_id e modules d.0 a.1),
      )

  sweep-none :
      (recorded : Recorded) (modules : List BoundModule) (log : Recorded)
      → All
          (λ (m : BoundModule).
            previously_silent recorded m.module_id ≡ silent_now silence_secs now m)
          modules
      → sweep silence_secs now recorded modules log ≡ (log, 0)
  unfolding sweep
  sweep-none recorded [] log h = refl
  sweep-none recorded (m ∷ modules) log h =
      let quiet = event_of-none recorded m h.0 in
      let rest = sweep-none recorded modules log h.1 in ground (arith, quiet, rest)

agrees_refl :
    (log : Recorded) (modules : List BoundModule)
    → All (λ (m : BoundModule). log m.module_id ≡ log m.module_id) modules
agrees_refl log [] = tt
agrees_refl log (m ∷ modules) = (refl, agrees_refl log modules)

records_later :
    (silence_secs : ℤ) (now later : ℕ) (recorded : Recorded) (modules : List BoundModule)
    → All
        (λ (m : BoundModule). silent_now silence_secs later m ≡ silent_now silence_secs now m)
        modules
    → All
        (λ (m : BoundModule).
          previously_silent recorded m.module_id ≡ silent_now silence_secs now m)
        modules
    → All
        (λ (m : BoundModule).
          previously_silent recorded m.module_id ≡ silent_now silence_secs later m)
        modules
records_later silence_secs now later recorded [] same h = tt
records_later silence_secs now later recorded (m ∷ modules) same h =
    (h.0 ∙ sym same.0, records_later silence_secs now later recorded modules same.1 h.1)

-- A sweep over modules of which each stands in one row leaves a record after which a sweep over the
-- same rows, at any time at which the same modules count as silent, writes nothing and changes
-- nothing.
pub sweep_once-again :
    (silence_secs : ℤ) (now later : ℕ) (modules : List BoundModule) (log : Recorded)
    → AreDistinct modules
    → All
        (λ (m : BoundModule). silent_now silence_secs later m ≡ silent_now silence_secs now m)
        modules
    → sweep_once silence_secs later modules (sweep_once silence_secs now modules log).0
      ≡ ((sweep_once silence_secs now modules log).0, 0)
unfolding sweep_once
sweep_once-again silence_secs now later modules log distinct same =
    let first = (sweep silence_secs now log modules log).0 in
    sweep-none silence_secs later first modules first (
      records_later silence_secs now later first modules same
        (sweep-records silence_secs now log modules log distinct (agrees_refl log modules)))
