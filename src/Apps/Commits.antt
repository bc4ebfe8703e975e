-- ===== src/Apps/Commits.antt =====
-- A commit with the reload that it starts: `update_apps_on_pilots_changes` and `generate_pilot_apps` of
-- sta/src/main.py, with what the reload raises.
use Prim.Native.String.{[], ◌∷◌}
use mathlib.Core.List.{List, [], ◌∷◌}
use sta_generation_service.Prelude.{String, if◌then◌else◌, ◌≡◌, ◌⊎◌, All}
use sta_generation_service.Errors.{Result, ok, err, index_error, integrity_error}
use sta_generation_service.Models.{Pilot, Resource}
use sta_generation_service.Pilots.{Service, Reply, Action, unique_names}
use sta_generation_service.Apps.{Listing, Mount, generate_pilot_apps}
use sta_generation_service.Apps.Paths.{composites, HasParts}

-- The listener runs when the rows are stored. The reload begins by clearing all routes, and mounts an
-- application only after its routes are made; what it raises goes through db.commit().
unfoldable pub reloaded : List Pilot → Reply → Result (List Mount) → Result Reply × Service
reloaded table reply (ok mounted) = (ok reply, record { table = table; mounted = table })
reloaded table reply (err e) = (err e, record { table = table; mounted = [] })

unfoldable pub commit_reload : Listing → List Pilot → Reply → Action
unfolding unique_names generate_pilot_apps reloaded
commit_reload listing table reply s =
    if unique_names table
    then reloaded table reply (generate_pilot_apps listing table)
    else (err integrity_error, s)

-- What the names of the composites decide: either all have two parts and a value is made, or some
-- have not and IndexError is raised.
abbrev Decides : Type 0 → {A : Type 0} → Result A → Type 0
Decides Parted {A} r = (Parted × ((a : A) × (r ≡ ok a))) ⊎ (¬ Parted × (r ≡ err index_error))

-- Each composite name in the folders of these resources has an underscore.
abbrev pub Parted : Listing → List Resource → Type 0
Parted listing resources = All (λ resource. All HasParts (composites (listing resource))) resources
