-- ===== src/Pilots/Reloads.antt =====
-- Reloads of the applications that run at one time: each commit of the table starts one, in the thread
-- of its request. `generate_pilot_apps` of sta/src/main.py empties the list of routes, asks for the
-- pilots and mounts one application after another, and the turns of two threads fall between each
-- other in any order. The routes of the pilots' own router, which every reload includes, are left out.
pub mod Covered
pub mod Alone
use mathlib.Core.List.{List, [], ◌∷◌, ◌++◌}
use sta_generation_service.Prelude.{ℕ, zero, suc}
use sta_generation_service.Models.{Pilot}

-- Where a reload stands: before `app.routes.clear()`, before the query, and in the loop with the
-- pilots that it still has to mount.
pub data Reload : Type 0 where
  to_clear to_query : Reload
  to_mount : (todo : List Pilot) → Reload

-- The table, the applications that are mounted, in their order, and the reloads from the first on.
pub record Shared : Type 0 where
  pub table : List Pilot
  pub mounted : List Pilot
  pub reloads : List Reload

-- The next action of a reload, and the list of routes after it.
unfoldable pub go_on : (table : List Pilot) → Reload → (mounted : List Pilot) → Reload × List Pilot
go_on table to_clear mounted = (to_query, [])
go_on table to_query mounted = (to_mount table, mounted)
go_on table (to_mount []) mounted = (to_mount [], mounted)
go_on table (to_mount (pilot ∷ todo)) mounted = (to_mount todo, mounted ++ pilot ∷ [])

-- The turn of the reload at a place.
unfoldable pub turn :
    (table : List Pilot) → ℕ → List Reload → (mounted : List Pilot) → List Reload × List Pilot
unfolding go_on
turn table place [] mounted = ([], mounted)
turn table zero (reload ∷ reloads) mounted =
    let (next, after) = go_on table reload mounted in (next ∷ reloads, after)
turn table (suc place) (reload ∷ reloads) mounted =
    let (later, after) = turn table place reloads mounted in (reload ∷ later, after)

-- What happens: a request commits a table, or a reload takes a turn.
pub data Event : Type 0 where
  committed : (table : List Pilot) → Event
  turned : (place : ℕ) → Event

unfoldable pub happen : Event → Shared → Shared
unfolding turn
happen (committed table) s = record s { table = table; reloads = s.reloads ++ to_clear ∷ [] }
happen (turned place) s =
    let (reloads, mounted) = turn s.table place s.reloads s.mounted in
    record s { mounted = mounted; reloads = reloads }

unfoldable pub happen_all : List Event → Shared → Shared
unfolding happen
happen_all [] s = s
happen_all (event ∷ events) s = happen_all events (happen event s)
