-- ===== src/Server/Schedules/Window.antt =====
-- What the window arithmetic of server/src/schedules.rs computes: the maximal open span.
use cooperative_systems_spac.Prelude.{
  ℕ, zero, suc, ◌≤◌, ◌<◌, ◌≡◌, refl, ap, ◌∙◌, sym, Bool, true, false, ◌&&◌, ◌||◌, none, some, List,
  [], ◌∷◌, arith, ltb, ◌==◌, nat_eq, inl, inr, ◌↔◌, Bool-cases, Option-cases, any, filter, find,
  length, any-filter, find-none, find-of-any, find-holds, find-In, any_of_In, length-filter-le,
  length-filter_lt,
}
use cooperative_systems_spac.Server.Schedules.{
  DayOfWeek, day_index, day_eq, ScheduleInterval, covers, extends, day_of, extend, sort_by_start,
  insert_by_start, window_end,
}

-- Some interval of the day covers the time: what `matches_at` asks at a local reading.
abbrev pub is_open : List ScheduleInterval → DayOfWeek → ℕ → Bool
is_open ivs dow t = any (λ iv. day_index iv.day == day_index dow && covers t iv) ivs

module _ (p : ScheduleInterval → Bool) where
  any-insert_by_start :
      (iv : ScheduleInterval) (xs : List ScheduleInterval)
      → any p (insert_by_start iv xs) ≡ (p iv || any p xs)
  unfolding insert_by_start
  any-insert_by_start iv [] = refl
  any-insert_by_start iv (x ∷ xs) = ground (arith, any-insert_by_start iv xs)

  any-sort_by_start : (xs : List ScheduleInterval) → any p (sort_by_start xs) ≡ any p xs
  unfolding sort_by_start
  any-sort_by_start [] = refl
  any-sort_by_start (x ∷ xs) =
      any-insert_by_start x (sort_by_start xs) ∙ ap (λ b. p x || b) (any-sort_by_start xs)

any-day_of :
    (ivs : List ScheduleInterval) (dow : DayOfWeek) (t : ℕ)
    → any (covers t) (day_of dow ivs) ≡ is_open ivs dow t
any-day_of ivs dow t =
    any-sort_by_start (covers t) (filter (λ iv. iv.day == dow) ivs)
    ∙ any-filter (covers t) (λ iv. day_index iv.day == day_index dow) ivs

-- The intervals that end after `end`: those that may still extend the window.
abbrev later : ℕ → List ScheduleInterval → ℕ
later end day = length (filter (λ iv. ltb end iv.end) day)

module _ (day : List ScheduleInterval) where
  later_drops :
      (end : ℕ) (iv : ScheduleInterval)
      → find (extends end) day ≡ some iv
      → later iv.end day < later end day
  later_drops end iv h =
      let ext = find-holds (extends end) day h in
      length-filter_lt (λ x. ltb iv.end x.end) (λ x. ltb end x.end) (λ x. ground arith) day
        (find-In (extends end) day h) (ground arith) (ground arith)

  extend_stop : (fuel end : ℕ) → find (extends end) day ≡ none → extend fuel day end ≡ end
  unfolding extend
  extend_stop zero end n = refl
  extend_stop (suc fuel) end n = rw (n, extend)

  extend_step :
      (fuel end : ℕ) {iv : ScheduleInterval}
      → find (extends end) day ≡ some iv
      → extend (suc fuel) day end ≡ extend fuel day iv.end
  unfolding extend
  extend_step fuel end s = rw (s, extend)

  -- With a round for each later interval the loop ends because nothing extends the window.
  extend_done :
      (fuel end : ℕ) → later end day ≤ fuel → any (covers (extend fuel day end)) day ≡ false
  extend_done zero end h = elim (Option-cases (find (extends end) day)) [
    | inl n ↦ rw (extend_stop zero end n) (find-none (covers end) day n)
    | inr (iv, s) ↦ absurd (omega (arith, later_drops end iv s))
  ]
  extend_done (suc fuel) end h = elim (Option-cases (find (extends end) day)) [
    | inl n ↦ rw (extend_stop (suc fuel) end n) (find-none (covers end) day n)
    | inr (iv, s) ↦
        rw (extend_step fuel end s) (extend_done fuel iv.end (omega (arith, later_drops end iv s)))
  ]

  -- Every instant that the loop passes over is covered.
  extend_covered : (fuel end t : ℕ) → end ≤ t → t < extend fuel day end → any (covers t) day ≡ true
  extend_covered zero end t h k = absurd (let k' : t < end = unfold extend in k in omega arith)
  extend_covered (suc fuel) end t h k = elim (Option-cases (find (extends end) day)) [
    | inl n ↦ absurd (let k' : t < end = rw (extend_stop (suc fuel) end n) at k in omega arith)
    | inr (iv, s) ↦
        let ext = find-holds (extends end) day s in
        let k' : t < extend fuel day iv.end = rw (extend_step fuel end s) at k in
        elim (Bool-cases (ltb t iv.end)) [
          | inl below ↦ any_of_In (covers t) day (find-In (extends end) day s) (ground arith)
          | inr above ↦ extend_covered fuel iv.end t (ground arith) k'
        ]
  ]

  end-le-extend : (fuel end : ℕ) → end ≤ extend fuel day end
  end-le-extend zero end = unfold extend in omega arith
  end-le-extend (suc fuel) end = elim (Option-cases (find (extends end) day)) [
    | inl n ↦ rw (extend_stop (suc fuel) end n) (omega arith)
    | inr (iv, s) ↦
        let ext = find-holds (extends end) day s in
        rw (extend_step fuel end s) (ground (arith, end-le-extend fuel iv.end))
  ]

-- The window that `window_end` answers with: it reaches past `now`, all of it is open, and it
-- cannot be longer.
pub record IsWindow (ivs : List ScheduleInterval) (dow : DayOfWeek) (now end : ℕ) : Type 0 where
  pub ahead : now < end
  pub held : (t : ℕ) → now ≤ t → t < end → is_open ivs dow t ≡ true
  pub closed : is_open ivs dow end ≡ false

module _ (ivs : List ScheduleInterval) (dow : DayOfWeek) (now : ℕ) where
  window_end_stop : find (covers now) (day_of dow ivs) ≡ none → window_end ivs dow now ≡ none
  unfolding window_end
  window_end_stop n = rw (n, window_end)

  window_end_start :
      {iv : ScheduleInterval}
      → find (covers now) (day_of dow ivs) ≡ some iv
      → window_end ivs dow now ≡ some (extend (length (day_of dow ivs)) (day_of dow ivs) iv.end)
  unfolding window_end
  window_end_start s = rw (s, window_end)

  -- No window ends exactly when nothing is open now.
  pub window_end-none_iff : (window_end ivs dow now ≡ none) ↔ (is_open ivs dow now ≡ false)
  window_end-none_iff = (
    λ h. elim (Option-cases (find (covers now) (day_of dow ivs))) [
      | inl n ↦ sym (any-day_of ivs dow now) ∙ find-none (covers now) (day_of dow ivs) n
      | inr (iv, s) ↦ cc (window_end_start s)
    ],
    λ h. window_end_stop (find-of-any (covers now) (day_of dow ivs) (any-day_of ivs dow now ∙ h)),
  )

  IsWindow-extend :
      {iv : ScheduleInterval}
      → find (covers now) (day_of dow ivs) ≡ some iv
      → IsWindow ivs dow now (extend (length (day_of dow ivs)) (day_of dow ivs) iv.end)
  IsWindow-extend {iv} s =
      let day = day_of dow ivs in
      let inside = find-holds (covers now) day s in
      record {
        ahead = ground (arith, end-le-extend day (length day) iv.end);
        held = λ t h k. sym (any-day_of ivs dow t) ∙ elim (Bool-cases (ltb t iv.end)) [
          | inl below ↦ any_of_In (covers t) day (find-In (covers now) day s) (ground arith)
          | inr above ↦ extend_covered day (length day) iv.end t (ground arith) k
        ];
        closed =
            sym (any-day_of ivs dow (extend (length day) day iv.end))
            ∙ extend_done day (length day) iv.end (length-filter-le (λ x. ltb iv.end x.end) day);
      }

  -- The window that is found is the maximal one.
  pub window_end-IsWindow : {end : ℕ} → window_end ivs dow now ≡ some end → IsWindow ivs dow now end
  window_end-IsWindow {end} h = elim (Option-cases (find (covers now) (day_of dow ivs))) [
    | inl n ↦ cc (window_end_stop n)
    | inr (iv, s) ↦
        let e : extend (length (day_of dow ivs)) (day_of dow ivs) iv.end ≡ end =
          cc (window_end_start s) in
        rw e at (IsWindow-extend s)
  ]
