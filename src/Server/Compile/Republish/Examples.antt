-- ===== src/Server/Compile/Republish/Examples.antt =====
-- Two devices whose doors do not change, a minute apart, with a hash that tells the instants apart.
use cooperative_systems_spac.Prelude.{
  ℕ, ◌≡◌, refl, true, not, [], ◌∷◌, ◌==◌, nat_eq, empty_map, filter,
}
use cooperative_systems_spac.Server.Compile.{DoorStateSnapshot}
use cooperative_systems_spac.Server.Compile.Republish.{republish_changed, republish_changed-pushes}

abbrev hash_of : DoorStateSnapshot → ℕ
hash_of s = s.snapshot_at

abbrev at : ℕ → ℕ → DoorStateSnapshot
at t id = record { snapshot_at = t; doors = [] }

republish_changed-pushes_example :
    (republish_changed hash_of
      (at 60)
      (λ _. true)
      (1 ∷ 2 ∷ [])
      (republish_changed hash_of (at 0) (λ _. true) (1 ∷ 2 ∷ []) empty_map).0).1
    ≡ filter (λ id. not (hash_of (at 0 id) == hash_of (at 60 id))) (1 ∷ 2 ∷ [])
republish_changed-pushes_example =
    republish_changed-pushes hash_of (λ _. true) (at 0) (at 60) (1 ∷ 2 ∷ []) empty_map
      (refl, (refl, tt)) (refl, (refl, tt))
