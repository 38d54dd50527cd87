-- ===== src/Server/Compile/Republish.antt =====
-- server/src/doors.rs, `republish_changed`: which devices the schedule's tick sends a snapshot to.
-- The hash of the serialized snapshot and the transport are parameters.
mod Examples
use cooperative_systems_spac.Prelude.{
  ℕ, ◌≡◌, ◌≢◌, refl, sym, ◌∙◌, Bool, true, false, ◌&&◌, ◌||◌, not, Option, none, some, List, [],
  ◌∷◌, Map, insert, nat_eq, ◌==◌, ==_iff, ==_refl, ==_sym, ==_ne, if◌then◌else◌, any, filter,
  is_some_and, arith, inl, inr, Bool-cases, Option-cases, All, AreDistinct,
}
use cooperative_systems_spac.Server.Compile.{DoorStateSnapshot, CompiledDoor}

-- `last_snapshot_hash`: the hash of what each device was last sent.
abbrev pub Hashes : Type 0
Hashes = Map ℕ ℕ

-- `map.get(&id).copied() == Some(hash)`
abbrev pub is_unchanged : Hashes → ℕ → ℕ → Bool
is_unchanged hashes id hash = is_some_and (λ h. h == hash) (hashes id)

module _ (hash_of : DoorStateSnapshot → ℕ) (compile : ℕ → DoorStateSnapshot) (push : ℕ → Bool) where
  -- One device: whether it is pushed to, and what is recorded; only a push that succeeds is.
  unfoldable pub republish_device : ℕ → Hashes → Hashes × Bool
  republish_device id hashes =
      let hash = hash_of (compile id) in
      if is_unchanged hashes id hash
      then (hashes, false)
      else (if push id then insert id hash hashes else hashes, true)

  -- The loop over the devices, with those that are pushed to.
  unfoldable pub republish_changed : List ℕ → Hashes → Hashes × List ℕ
  unfolding republish_device
  republish_changed [] hashes = (hashes, [])
  republish_changed (id ∷ ids) hashes =
      let (next, pushed) = republish_device id hashes in
      let rest = republish_changed ids next in (rest.0, if pushed then id ∷ rest.1 else rest.1)

module _ (hash_of : DoorStateSnapshot → ℕ) (push : ℕ → Bool) where
  device-other :
      (compile : ℕ → DoorStateSnapshot) (id other : ℕ) (hashes : Hashes)
      → (id == other) ≡ false
      → (republish_device hash_of compile push id hashes).0 other ≡ hashes other
  unfolding republish_device
  device-other compile id other hashes h = ground arith

  changed-other :
      (compile : ℕ → DoorStateSnapshot) (ids : List ℕ) (other : ℕ) (hashes : Hashes)
      → any (λ x. x == other) ids ≡ false
      → (republish_changed hash_of compile push ids hashes).0 other ≡ hashes other
  unfolding republish_changed
  changed-other compile [] other hashes h = refl
  changed-other compile (id ∷ ids) other hashes h =
      let next = (republish_device hash_of compile push id hashes).0 in
      changed-other compile ids other next (ground arith)
      ∙ device-other compile id other hashes (ground arith)

  device-recorded :
      (compile : ℕ → DoorStateSnapshot) (id : ℕ) (hashes : Hashes)
      → push id ≡ true
      → (republish_device hash_of compile push id hashes).0 id ≡ some (hash_of (compile id))
  unfolding republish_device
  device-recorded compile id hashes ok = elim (Option-cases (hashes id)) [
    | inl n ↦ ground (arith, ==_refl id)
    | inr (h, e) ↦ ground (arith, ==_refl id, ==_iff h (hash_of (compile id)))
  ]

  -- After a pass in which every push succeeds, each device's record is its snapshot's hash.
  changed-recorded :
      (compile : ℕ → DoorStateSnapshot) (ids : List ℕ) (hashes : Hashes)
      → AreDistinct ids
      → All (λ id. push id ≡ true) ids
      → All
          (λ id.
            (republish_changed hash_of compile push ids hashes).0 id ≡ some (hash_of (compile id)))
          ids
  unfolding republish_changed
  changed-recorded compile [] hashes d ok = tt
  changed-recorded compile (id ∷ ids) hashes d ok =
      let next = (republish_device hash_of compile push id hashes).0 in
      (
        changed-other compile ids id next d.0 ∙ device-recorded compile id hashes ok.0,
        changed-recorded compile ids next d.1 ok.1,
      )

  device-pushed :
      (compile : ℕ → DoorStateSnapshot) (id recorded : ℕ) (hashes : Hashes)
      → hashes id ≡ some recorded
      → (republish_device hash_of compile push id hashes).1 ≡ not (recorded == hash_of (compile id))
  unfolding republish_device
  device-pushed compile id recorded hashes e = ground (arith, e)

  kept_records :
      (first second : ℕ → DoorStateSnapshot) (id : ℕ) (ids : List ℕ) (hashes : Hashes)
      → any (λ x. x == id) ids ≡ false
      → All (λ x. hashes x ≡ some (hash_of (first x))) ids
      → All
          (λ x. (republish_device hash_of second push id hashes).0 x ≡ some (hash_of (first x)))
          ids
  kept_records first second id [] hashes d h = tt
  kept_records first second id (x ∷ ids) hashes d h =
      let apart : (id == x) ≡ false = ground (arith, ==_sym id x) in
      (
        device-other second id x hashes apart ∙ h.0,
        kept_records first second id ids hashes (ground arith) h.1,
      )

  pushes_changed :
      (first second : ℕ → DoorStateSnapshot) (ids : List ℕ) (hashes : Hashes)
      → AreDistinct ids
      → All (λ id. hashes id ≡ some (hash_of (first id))) ids
      → (republish_changed hash_of second push ids hashes).1
        ≡ filter (λ id. not (hash_of (first id) == hash_of (second id))) ids
  unfolding republish_changed
  pushes_changed first second [] hashes d h = refl
  pushes_changed first second (id ∷ ids) hashes d h =
      let next = (republish_device hash_of second push id hashes).0 in
      let here = device-pushed second id (hash_of (first id)) hashes h.0 in
      let rest =
        pushes_changed first second ids next d.1
          (kept_records first second id ids hashes d.0 h.1) in
      ground (arith, here, rest)

  -- After a pass over devices of which each is listed once and which all take the push, the next pass
  -- pushes to exactly those whose snapshot has another hash than in the pass before.
  pub republish_changed-pushes :
      (first second : ℕ → DoorStateSnapshot) (ids : List ℕ) (hashes : Hashes)
      → AreDistinct ids
      → All (λ id. push id ≡ true) ids
      → (republish_changed hash_of second push ids
          (republish_changed hash_of first push ids hashes).0).1
        ≡ filter (λ id. not (hash_of (first id) == hash_of (second id))) ids
  republish_changed-pushes first second ids hashes d ok =
      pushes_changed first second ids (republish_changed hash_of first push ids hashes).0 d
        (changed-recorded first ids hashes d ok)
