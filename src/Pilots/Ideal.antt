-- ===== src/Pilots/Ideal.antt =====
-- What the routes of sta/src/routers/pilots.py promise, told without rows and their order: the pilots
-- are a finite map of names to pilots, and a request answers from this map and changes it at a name.
-- The page of GET /pilots alone depends on an order, and takes the listing of the pilots it shows.
pub mod Rows
pub mod Refinement
pub mod Orders
use Prim.Native.String.{[], ◌∷◌}
use mathlib.Core.List.{List, [], ◌∷◌, map}
use text.Mathlib.Text.{◌==◌}
use sta_generation_service.Prelude.{
  ℕ, String, Bool, true, false, ◌||◌, not, Option, none, some, if◌then◌else◌, is_some, take, drop,
  ◌≡◌,
}
use sta_generation_service.Errors.{Result, ok, err, http, integrity_error}
use sta_generation_service.Text.{◌<>◌}
use sta_generation_service.Models.{Pilot, PilotData}
use sta_generation_service.CachedProperties.{AskStore, get_integer_code}
use sta_generation_service.Pilots.{
  Service, Site, Reply, Call, read_all, create, read, update, cache, delete, find_pilot,
  unique_names, new_pilot, assign, set_cached, reply_with, pilots, cache_reloaded, no_content,
  get_pilot_schema, no_pilot, handle,
}

-- The pilots by their names.
abbrev pub Ideal : Type 0
Ideal = String → Option Pilot

-- What the table of a service stands for.
abbrev pub view : List Pilot → Ideal
view table name = find_pilot name table

abbrev pub put : String → Pilot → Ideal → Ideal
put name p m other = if name == other then some p else m other

abbrev pub forget : String → Ideal → Ideal
forget name m other = if name == other then none else m other

-- The pilot at `name` takes the place and the name of `p`, unless another pilot has that name.
unfoldable pub replace_at : String → Pilot → Reply → Ideal → Result Reply × Ideal
replace_at name p reply m =
    if p.name == name || not (is_some (m p.name))
    then (ok reply, put p.name p (forget name m))
    else (err integrity_error, m)

unfoldable pub store_at : String → Pilot → Result ℕ → Ideal → Result Reply × Ideal
unfolding set_cached
store_at name p (ok code) m =
    (ok (record { status = 200; body = cache_reloaded }), put name (set_cached code p) m)
store_at name p (err e) m = (err e, m)

module _ (site : Site) (ask : AskStore) where
  unfoldable pub answer : (listing : List Pilot) → Call → Ideal → Result Reply × Ideal
  unfolding replace_at store_at no_pilot
  answer listing (read_all top skip) m = (
    ok (record {
      status = 200;
      body = pilots (map (get_pilot_schema site) (take top (drop skip listing)));
    }),
    m,
  )
  answer listing (create d) m = elim (m d.name) [
    | some p ↦ (err (http 400 (some ("Pilot with name " <> (d.name <> " already exists")))), m)
    | none ↦ (ok (reply_with site 200 (new_pilot d)), put d.name (new_pilot d) m)
  ]
  answer listing (read name) m = elim (m name) [
    | none ↦ (err (http 404 (some ("Pilot with name " <> (name <> " not found")))), m)
    | some p ↦ (ok (reply_with site 200 p), m)
  ]
  answer listing (update name d) m = elim (m name) [
    | some p ↦ replace_at name (assign d p) (reply_with site 200 (assign d p)) m
    | none ↦
        if is_some (m d.name)
        then (err integrity_error, m)
        else (ok (reply_with site 201 (new_pilot d)), put d.name (new_pilot d) m)
  ]
  answer listing (cache name) m = elim (m name) [
    | some p ↦ store_at name p (get_integer_code ask p) m
    | none ↦ (err (http 400 (some (no_pilot name))), m)
  ]
  answer listing (delete name) m = elim (m name) [
    | some p ↦ (ok (record { status = 204; body = no_content }), forget name m)
    | none ↦ (err (http 400 (some (no_pilot name))), m)
  ]

-- `listing` shows each pilot of the map, and no name twice.
pub record Lists (listing : List Pilot) (m : Ideal) : Type 0 where
  pub once : unique_names listing ≡ true
  pub all : view listing ≡ m

-- A history that the promises allow: the map at its start, its requests, their answers in the same
-- order, and the map at its end.
pub data Follows (site : Site) (ask : AskStore)
    : Ideal → List Call → List (Result Reply) → Ideal → Type 0 where
  finished : {m : Ideal} → Follows site ask m [] [] m
  one_more :
      {m n : Ideal} {calls : List Call} {replies : List (Result Reply)} (c : Call)
      (listing : List Pilot)
      → Lists listing m
      → Follows site ask (answer site ask listing c m).1 calls replies n
      → Follows site ask m (c ∷ calls) ((answer site ask listing c m).0 ∷ replies) n

-- The answers of the service to a history of requests.
unfoldable pub replies : Site → AskStore → List Call → Service → List (Result Reply)
unfolding handle
replies site ask [] s = []
replies site ask (c ∷ calls) s =
    let (reply, later) = handle site ask c s in reply ∷ replies site ask calls later
