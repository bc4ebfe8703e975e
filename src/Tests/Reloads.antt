-- ===== src/Tests/Reloads.antt =====
-- Reloads of the applications, one alone and two at one time.
use mathlib.Core.List.{List, [], ◌∷◌, Memᴰ}
use sta_generation_service.Prelude.{◌≡◌, refl}
use sta_generation_service.Models.{Pilot}
use sta_generation_service.Pilots.{Reply, cache_reloaded, commit, unique_names}
use sta_generation_service.Pilots.Reloads.{Shared, to_mount, Event, committed, turned, happen_all}
use sta_generation_service.Pilots.Reloads.Covered.{happen_all-mounted}
use sta_generation_service.Pilots.Reloads.Alone.{turns, happen_all-commit}
use sta_generation_service.Tests.{farm}
use sta_generation_service.Tests.Pilots.{mill}

abbrev one_farm : Shared
one_farm = record { table = farm ∷ []; mounted = farm ∷ []; reloads = [] }

abbrev both : List Pilot
both = farm ∷ mill ∷ []

-- While the reload after a POST is between its query and its loop, a DELETE commits and reloads.
abbrev overlap : List Event
overlap =
    committed both
    ∷ turned 0
    ∷ turned 0
    ∷ committed (mill ∷ [])
    ∷ turned 1
    ∷ turned 1
    ∷ turned 1
    ∷ turned 0
    ∷ turned 0
    ∷ []

-- The application of the deleted pilot is mounted at the end, and the other one twice.
test_overlap : happen_all overlap one_farm ≡ record {
  table = mill ∷ [];
  mounted = mill ∷ farm ∷ mill ∷ [];
  reloads = to_mount [] ∷ to_mount [] ∷ [];
}
unfolding happen_all
test_overlap = refl

happen_all-mounted_example : Memᴰ mill (happen_all overlap one_farm).mounted
unfolding happen_all
happen_all-mounted_example =
    happen_all-mounted overlap one_farm mill (λ q row. row) (refl, (refl, tt)) (Memᴰ.head refl)

abbrev reloaded_once : Reply
reloaded_once = record { status = 200; body = cache_reloaded }

happen_all-commit_example :
    let after = happen_all (committed both ∷ turns 4 0) one_farm in
    (after.reloads ≡ to_mount [] ∷ [])
    × ((commit both reloaded_once (record { table = farm ∷ []; mounted = farm ∷ [] })).1
        ≡ record { table = after.table; mounted = after.mounted })
unfolding unique_names
happen_all-commit_example = happen_all-commit both reloaded_once one_farm refl
