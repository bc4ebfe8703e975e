-- ===== src/Pilots.antt =====
-- The routes of sta/src/routers/pilots.py over the table of sta/src/models.py, and the reload of the
-- applications after each commit (`update_apps_on_pilots_changes` of sta/src/main.py).
-- The table is a list of rows in the order in which the database returns them. Its column `name` is
-- unique: a commit that would store a name twice raises and leaves the table as it was.
pub mod Rows
pub mod Invariant
pub mod Lookup
pub mod Ideal
pub mod Reloads
pub mod Caching
use Prim.Native.String.{[], ◌∷◌}
use mathlib.Core.List.{List, [], ◌∷◌, ◌++◌, map}
use text.Mathlib.Text.{◌==◌}
use sta_generation_service.Prelude.{
  ℕ, zero, suc, String, Bool, true, false, not, ◌&&◌, ◌||◌, Option, none, some, if◌then◌else◌,
  is_some, take, drop,
}
use sta_generation_service.Errors.{Error, Result, ok, err, http, integrity_error}
use sta_generation_service.Text.{◌<>◌}
use sta_generation_service.Models.{Pilot, PilotData, PilotResponse}
use sta_generation_service.CachedProperties.{AskStore, get_integer_code}

-- The table, and the pilots for which applications are mounted.
pub record Service : Type 0 where
  pub table : List Pilot
  pub mounted : List Pilot

pub data Body : Type 0 where
  pilots : List PilotResponse → Body
  pilot : PilotResponse → Body
  cache_reloaded : Body
  no_content : Body

pub record Reply : Type 0 where
  pub status : ℕ
  pub body : Body

-- What a route does: it answers or raises, and leaves a state.
abbrev pub Action : Type 0
Action = Service → Result Reply × Service

-- The parts of a request that the answers show: settings.DEBUG, and request.url.netloc.
pub record Site : Type 0 where
  pub debug : Bool
  pub netloc : String

unfoldable pub get_pilot_schema : Site → Pilot → PilotResponse
get_pilot_schema site db_pilot =
    let url : String =
      (if site.debug then "http://" else "https://")
      <> (site.netloc <> ("/" <> (db_pilot.name <> "/api/v1.0/"))) in
    record {
      name = db_pilot.name;
      description = db_pilot.description;
      custom_endpoint = db_pilot.custom_endpoint;
      root_url = url;
      swagger_url = url <> "docs";
      graphs = db_pilot.graphs;
    }

-- db.query(models.Pilot).filter(models.Pilot.name == name).first()
unfoldable pub find_pilot : String → List Pilot → Option Pilot
find_pilot name [] = none
find_pilot name (p ∷ table) = if p.name == name then some p else find_pilot name table

unfoldable pub unique_names : List Pilot → Bool
unfolding find_pilot
unique_names [] = true
unique_names (p ∷ table) = not (is_some (find_pilot p.name table)) && unique_names table

-- The row that `find_pilot` finds, changed or deleted.
unfoldable pub change_pilot : String → (Pilot → Pilot) → List Pilot → List Pilot
change_pilot name f [] = []
change_pilot name f (p ∷ table) =
    if p.name == name then f p ∷ table else p ∷ change_pilot name f table

unfoldable pub remove_pilot : String → List Pilot → List Pilot
remove_pilot name [] = []
remove_pilot name (p ∷ table) = if p.name == name then table else p ∷ remove_pilot name table

-- db.commit(), and the listener that then mounts the applications of all pilots anew, in the case that
-- their routes can be made; Apps/Commits has the commit whose reload raises.
unfoldable pub commit : List Pilot → Reply → Action
unfolding unique_names
commit table reply s =
    if unique_names table
    then (ok reply, record { table = table; mounted = table })
    else (err integrity_error, s)

-- models.Pilot(**data.model_dump())
unfoldable pub new_pilot : PilotData → Pilot
new_pilot d = record {
  name = d.name;
  description = d.description;
  custom_endpoint = d.custom_endpoint;
  graphs = d.graphs;
  cached_properties = none;
}

-- The assignments of `update_pilot`.
unfoldable pub assign : PilotData → Pilot → Pilot
assign d p = record {
  name = d.name;
  description = d.description;
  custom_endpoint = d.custom_endpoint;
  graphs = d.graphs;
  cached_properties = p.cached_properties;
}

no_pilot : String → String
no_pilot name = "Pilot with name " <> (name <> " doesn't exists")

module _ (site : Site) where
  pub reply_with : ℕ → Pilot → Reply
  unfolding get_pilot_schema
  reply_with status p = record { status = status; body = pilot (get_pilot_schema site p) }

  unfoldable pub read_pilots : ℕ → ℕ → Action
  unfolding get_pilot_schema
  read_pilots top skip s = (
    ok (record {
      status = 200;
      body = pilots (map (get_pilot_schema site) (take top (drop skip s.table)));
    }),
    s,
  )

  unfoldable pub create_pilot : PilotData → Action
  unfolding find_pilot new_pilot commit reply_with
  create_pilot d s = elim (find_pilot d.name s.table) [
    | some p ↦ (err (http 400 (some ("Pilot with name " <> (d.name <> " already exists")))), s)
    | none ↦ commit (s.table ++ new_pilot d ∷ []) (reply_with 200 (new_pilot d)) s
  ]

  unfoldable pub read_pilot : String → Action
  unfolding find_pilot reply_with
  read_pilot name s = elim (find_pilot name s.table) [
    | none ↦ (err (http 404 (some ("Pilot with name " <> (name <> " not found")))), s)
    | some p ↦ (ok (reply_with 200 p), s)
  ]

  unfoldable pub update_pilot : String → PilotData → Action
  unfolding find_pilot change_pilot assign new_pilot commit reply_with
  update_pilot name d s = elim (find_pilot name s.table) [
    | some p ↦ commit (change_pilot name (assign d) s.table) (reply_with 200 (assign d p)) s
    | none ↦ commit (s.table ++ new_pilot d ∷ []) (reply_with 201 (new_pilot d)) s
  ]

set_cached : ℕ → Pilot → Pilot
set_cached code p = record p { cached_properties = some code }

-- The code that the handler reads is stored, unless reading it raises.
store_code : String → Result ℕ → Action
unfolding change_pilot set_cached commit
store_code name (ok code) s =
    commit (change_pilot name (set_cached code) s.table)
      (record { status = 200; body = cache_reloaded }) s
store_code name (err e) s = (err e, s)

unfoldable pub cache_pilot : AskStore → String → Action
unfolding find_pilot get_integer_code store_code no_pilot
cache_pilot ask name s = elim (find_pilot name s.table) [
  | some p ↦ store_code name (get_integer_code ask p) s
  | none ↦ (err (http 400 (some (no_pilot name))), s)
]

unfoldable pub delete_pilot : String → Action
unfolding find_pilot remove_pilot commit no_pilot
delete_pilot name s = elim (find_pilot name s.table) [
  | some p ↦ commit (remove_pilot name s.table) (record { status = 204; body = no_content }) s
  | none ↦ (err (http 400 (some (no_pilot name))), s)
]

-- The requests to the routes, for a history of the service.
pub data Call : Type 0 where
  read_all : (top skip : ℕ) → Call
  create : PilotData → Call
  read : String → Call
  update : String → PilotData → Call
  cache : String → Call
  delete : String → Call

unfoldable pub handle : Site → AskStore → Call → Action
unfolding read_pilots create_pilot read_pilot update_pilot cache_pilot delete_pilot
handle site ask (read_all top skip) = read_pilots site top skip
handle site ask (create d) = create_pilot site d
handle site ask (read name) = read_pilot site name
handle site ask (update name d) = update_pilot site name d
handle site ask (cache name) = cache_pilot ask name
handle site ask (delete name) = delete_pilot name

-- An exception ends its own request only.
unfoldable pub serve : Site → AskStore → List Call → Service → Service
unfolding handle
serve site ask [] s = s
serve site ask (c ∷ calls) s = serve site ask calls (handle site ask c s).1
