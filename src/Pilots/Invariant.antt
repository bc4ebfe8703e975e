-- ===== src/Pilots/Invariant.antt =====
-- Names stay unique, and the mounted applications are those of the table.
use mathlib.Core.List.{List, [], ◌∷◌, ◌++◌}
use sta_generation_service.Prelude.{ℕ, String, true, ◌≡◌, refl, Bool-cases, Option-cases, inl, inr}
use sta_generation_service.Errors.{Result, ok, err}
use sta_generation_service.Models.{Pilot}
use sta_generation_service.CachedProperties.{AskStore, get_integer_code}
use sta_generation_service.Pilots.{
  Service, Site, Reply, Call, read_all, create, read, update, cache, delete, commit, unique_names,
  find_pilot, store_code, set_cached, change_pilot, remove_pilot, new_pilot, assign, reply_with,
  cache_reloaded, no_content, create_pilot, read_pilot, read_pilots, update_pilot, cache_pilot,
  delete_pilot, handle,
}

pub record IsConsistent (s : Service) : Type 0 where
  pub unique : unique_names s.table ≡ true
  pub reloaded : s.mounted ≡ s.table

commit-IsConsistent :
    (table : List Pilot) (reply : Reply) (s : Service)
    → IsConsistent s
    → IsConsistent (commit table reply s).1
unfolding commit
commit-IsConsistent table reply s h = elim (Bool-cases (unique_names table)) [
  | inl unique ↦ rw unique (record { unique = unique; reloaded = refl })
  | inr twice ↦ rw twice h
]

-- What holds of each outcome of a look-up holds of the branch that is taken.
store_code-IsConsistent :
    (name : String) (code : Result ℕ) (s : Service)
    → IsConsistent s
    → IsConsistent (store_code name code s).1
unfolding store_code
store_code-IsConsistent name (ok code) s h =
    commit-IsConsistent (change_pilot name (set_cached code) s.table)
      (record { status = 200; body = cache_reloaded }) s h
store_code-IsConsistent name (err e) s h = h

module _ (site : Site) (ask : AskStore) (s : Service) (h : IsConsistent s) where
  pub handle-IsConsistent : (c : Call) → IsConsistent (handle site ask c s).1
  unfolding handle read_pilots create_pilot read_pilot update_pilot cache_pilot delete_pilot
  handle-IsConsistent (read_all top skip) = h
  handle-IsConsistent (create d) = elim (Option-cases (find_pilot d.name s.table)) [
    | inl new ↦
        rw (handle, create_pilot, new)
          (commit-IsConsistent (s.table ++ new_pilot d ∷ []) (reply_with site 200 (new_pilot d)) s
            h)
    | inr (p, old) ↦ rw (handle, create_pilot, old) h
  ]
  handle-IsConsistent (read name) = elim (Option-cases (find_pilot name s.table)) [
    | inl new ↦ rw (handle, read_pilot, new) h
    | inr (p, old) ↦ rw (handle, read_pilot, old) h
  ]
  handle-IsConsistent (update name d) = elim (Option-cases (find_pilot name s.table)) [
    | inl new ↦
        rw (handle, update_pilot, new)
          (commit-IsConsistent (s.table ++ new_pilot d ∷ []) (reply_with site 201 (new_pilot d)) s
            h)
    | inr (p, old) ↦
        rw (handle, update_pilot, old)
          (commit-IsConsistent (change_pilot name (assign d) s.table)
            (reply_with site 200 (assign d p)) s h)
  ]
  handle-IsConsistent (cache name) = elim (Option-cases (find_pilot name s.table)) [
    | inl new ↦ rw (handle, cache_pilot, new) h
    | inr (p, old) ↦
        rw (handle, cache_pilot, old) (store_code-IsConsistent name (get_integer_code ask p) s h)
  ]
  handle-IsConsistent (delete name) = elim (Option-cases (find_pilot name s.table)) [
    | inl new ↦ rw (handle, delete_pilot, new) h
    | inr (p, old) ↦
        rw (handle, delete_pilot, old)
          (commit-IsConsistent (remove_pilot name s.table)
            (record { status = 204; body = no_content }) s h)
  ]
