-- ===== src/Pilots/Lookup.antt =====
-- What the table holds after each route that writes.
use mathlib.Core.List.{List, [], ◌∷◌, ◌++◌}
use sta_generation_service.Prelude.{
  ℕ, String, true, Option, none, some, ◌≡◌, ◌≢◌, refl, sym, arith, Option-cases, inl, inr,
}
use sta_generation_service.Errors.{Error, ok, err}
use sta_generation_service.Models.{Pilot, PilotData}
use sta_generation_service.Pilots.{
  Service, Site, Reply, commit, unique_names, find_pilot, change_pilot, remove_pilot, new_pilot,
  assign, reply_with, no_content, create_pilot, update_pilot, delete_pilot,
}
use sta_generation_service.Pilots.Invariant.{IsConsistent}
use sta_generation_service.Pilots.Rows.{
  find-add_self, find-add_ne, find-change_self, find-change_ne, find-remove_self, find-remove_ne,
  find_of_unique-add,
}

-- A commit that succeeds has stored its table, with unique names.
commit-ok :
    (table : List Pilot) (reply : Reply) (s : Service) {r : Reply} {s' : Service}
    → commit table reply s ≡ (ok r, s')
    → (unique_names table ≡ true) × (s'.table ≡ table)
unfolding commit
commit-ok table reply s h = ground arith

-- A request that raises has changed nothing.
commit-err :
    (table : List Pilot) (reply : Reply) (s : Service) {e : Error} {s' : Service}
    → commit table reply s ≡ (err e, s')
    → s' ≡ s
unfolding commit
commit-err table reply s h = ground arith

abbrev pub cached_of : Option Pilot → Option ℕ
cached_of none = none
cached_of (some p) = p.cached_properties

-- The row `p` holds the data of a request body, and the given cached properties.
pub record Holds (d : PilotData) (cached : Option ℕ) (p : Pilot) : Type 0 where
  pub name : p.name ≡ d.name
  pub description : p.description ≡ d.description
  pub custom_endpoint : p.custom_endpoint ≡ d.custom_endpoint
  pub graphs : p.graphs ≡ d.graphs
  pub cached_properties : p.cached_properties ≡ cached

-- What a commit of a table with one more row leaves.
added :
    (p : Pilot) (reply : Reply) (s : Service) {r : Reply} {s' : Service}
    → commit (s.table ++ p ∷ []) reply s ≡ (ok r, s')
    → (find_pilot p.name s'.table ≡ some p)
      × ((other : String) → p.name ≢ other → find_pilot other s'.table ≡ find_pilot other s.table)
added p reply s h =
    let (unique, same) = commit-ok (s.table ++ p ∷ []) reply s h in
    rw same (
      find-add_self s.table p (find_of_unique-add s.table p unique),
      λ other. find-add_ne s.table p other,
    )

new_pilot-Holds : (d : PilotData) → Holds d none (new_pilot d)
unfolding new_pilot
new_pilot-Holds d = record {
  name = refl;
  description = refl;
  custom_endpoint = refl;
  graphs = refl;
  cached_properties = refl;
}

assign-Holds : (d : PilotData) (p : Pilot) → Holds d p.cached_properties (assign d p)
unfolding assign
assign-Holds d p = record {
  name = refl;
  description = refl;
  custom_endpoint = refl;
  graphs = refl;
  cached_properties = refl;
}

-- A successful PUT stores the body under its own name. The cached properties are those of the row
-- that was found under the name in the path, even where the body has other graphs or another
-- endpoint, and none for a new row. Rows with other names than these two stay as they are.
pub update_pilot_lem :
    (site : Site) (name : String) (d : PilotData) (s s' : Service) (reply : Reply)
    → update_pilot site name d s ≡ (ok reply, s')
    → (p : Pilot) × (find_pilot d.name s'.table ≡ some p)
      × Holds d (cached_of (find_pilot name s.table)) p
      × ((other : String)
          → other ≢ name
          → other ≢ d.name
          → find_pilot other s'.table ≡ find_pilot other s.table)
unfolding update_pilot
update_pilot_lem site name d s s' reply h = elim (Option-cases (find_pilot name s.table)) [
  | inl new ↦
      let (here, kept) =
        added (new_pilot d) (reply_with site 201 (new_pilot d)) s (rw (update_pilot, new) at h) in
      rw new
        (new_pilot d, here, new_pilot-Holds d, λ other ne ne_new. kept other (λ e. ne_new (sym e)))
  | inr (q, old) ↦
      let (unique, same) =
        commit-ok (change_pilot name (assign d) s.table) (reply_with site 200 (assign d q)) s
          (rw (update_pilot, old) at h) in
      rw (old, same)
        (
          assign d q,
          find-change_self s.table name d old unique,
          assign-Holds d q,
          λ other. find-change_ne s.table name d other,
        )
]

-- A successful POST had a new name and stores the body under it, with no cached properties. Rows
-- with other names stay as they are.
pub create_pilot_lem :
    (site : Site) (d : PilotData) (s s' : Service) (reply : Reply)
    → create_pilot site d s ≡ (ok reply, s')
    → (find_pilot d.name s.table ≡ none)
      × (find_pilot d.name s'.table ≡ some (new_pilot d))
      × ((other : String) → d.name ≢ other → find_pilot other s'.table ≡ find_pilot other s.table)
unfolding create_pilot
create_pilot_lem site d s s' reply h = elim (Option-cases (find_pilot d.name s.table)) [
  | inl new ↦
      let (here, kept) =
        added (new_pilot d) (reply_with site 200 (new_pilot d)) s (rw (create_pilot, new) at h) in
      (new, here, kept)
  | inr (q, old) ↦ let bad = rw (create_pilot, old) at h in absurd (cc)
]

-- Where names are unique, a successful DELETE removes the row with that name, and rows with other
-- names stay as they are.
pub delete_pilot_lem :
    (name : String) (s s' : Service) (reply : Reply)
    → IsConsistent s
    → delete_pilot name s ≡ (ok reply, s')
    → (find_pilot name s'.table ≡ none)
      × ((other : String) → other ≢ name → find_pilot other s'.table ≡ find_pilot other s.table)
unfolding delete_pilot
delete_pilot_lem name s s' reply c h = elim (Option-cases (find_pilot name s.table)) [
  | inl new ↦ let bad = rw (delete_pilot, new) at h in absurd (cc)
  | inr (q, old) ↦
      let (unique, same) =
        commit-ok (remove_pilot name s.table) (record { status = 204; body = no_content }) s
          (rw (delete_pilot, old) at h) in
      rw same (find-remove_self s.table name c.unique, λ other. find-remove_ne s.table name other)
]
