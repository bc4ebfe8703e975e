-- ===== src/Pilots/Ideal/Refinement.antt =====
-- The routes over the table keep the promises.
use mathlib.Core.List.{List, [], ◌∷◌, ◌++◌}
use text.Mathlib.Text.{◌==◌}
use sta_generation_service.Prelude.{
  ℕ, String, Bool, true, false, not, ◌||◌, Option, none, some, is_some, if◌then◌else◌, ◌≡◌, refl,
  sym, subst, ap, fun_ext, ◌∙◌, arith, eq_iff, Bool-cases, Option-cases, inl, inr,
}
use sta_generation_service.Errors.{Result, ok, err, integrity_error}
use sta_generation_service.Text.{◌<>◌}
use sta_generation_service.Dict.Laws.{eq_of_ne}
use sta_generation_service.Models.{Pilot}
use sta_generation_service.CachedProperties.{AskStore, get_integer_code}
use sta_generation_service.Apps.{Listing, Mount, generate_pilot_apps}
use sta_generation_service.Apps.Paths.{find_mount, find_mount-generate}
use sta_generation_service.Pilots.{
  Service, Site, Reply, Call, read_all, create, read, update, cache, delete, commit, unique_names,
  find_pilot, store_code, set_cached, change_pilot, remove_pilot, new_pilot, assign, reply_with,
  cache_reloaded, no_content, create_pilot, read_pilot, read_pilots, update_pilot, cache_pilot,
  delete_pilot, handle, serve,
}
use sta_generation_service.Pilots.Invariant.{IsConsistent, handle-IsConsistent}
use sta_generation_service.Pilots.Ideal.{
  Ideal, view, put, forget, replace_at, store_at, answer, Lists, Follows, finished, one_more,
  replies,
}
use sta_generation_service.Pilots.Ideal.Rows.{
  find-name, find-add, unique-add, find-change, unique-change, find-remove, unique-remove,
}

-- What a request came to, beside what was promised.
pub record Agrees (got : Result Reply × Service) (promised : Result Reply × Ideal) : Type 0 where
  pub same_reply : got.0 ≡ promised.0
  pub same_view : view got.1.table ≡ promised.1

commit-accepted :
    (table : List Pilot) (reply : Reply) (s : Service) {m : Ideal}
    → unique_names table ≡ true
    → view table ≡ m
    → Agrees (commit table reply s) (ok reply, m)
unfolding commit
commit-accepted table reply s unique e =
    rw (commit, unique) (record { same_reply = refl; same_view = e })

commit-refused :
    (table : List Pilot) (reply : Reply) (s : Service)
    → unique_names table ≡ false
    → Agrees (commit table reply s) (err integrity_error, view s.table)
unfolding commit
commit-refused table reply s twice =
    rw (commit, twice) (record { same_reply = refl; same_view = refl })

-- A row is added under a name that the map may have.
commit-add-Agrees :
    (p : Pilot) (reply : Reply) (s : Service)
    → IsConsistent s
    → Agrees (commit (s.table ++ p ∷ []) reply s) (
        if is_some (find_pilot p.name s.table)
        then (err integrity_error, view s.table)
        else (ok reply, put p.name p (view s.table)))
unfolding commit
commit-add-Agrees p reply s h = elim (Option-cases (find_pilot p.name s.table)) [
  | inl new ↦ rw new (
      commit-accepted (s.table ++ p ∷ []) reply s (unique-add s.table p ∙ rw (h.unique, new) refl)
        (fun_ext (λ other. find-add s.table p other new)))
  | inr (q, old) ↦
      rw old (
        commit-refused (s.table ++ p ∷ []) reply s (unique-add s.table p ∙ rw (h.unique, old) refl))
]

free_name :
    (taken : Bool) (o : Option Pilot) → (taken || not (is_some o)) ≡ true → taken ≡ false → o ≡ none
free_name taken none h e = refl
free_name taken (some p) h e = ground arith

-- A row is changed, and perhaps gets a name that another row has.
commit-change_pilot-Agrees :
    (f : Pilot → Pilot) (name : String) (p : Pilot) (reply : Reply) (s : Service)
    → IsConsistent s
    → find_pilot name s.table ≡ some p
    → Agrees
        (commit (change_pilot name f s.table) reply s)
        (replace_at name (f p) reply (view s.table))
unfolding commit replace_at
commit-change_pilot-Agrees f name p reply s h found =
    elim (Bool-cases ((f p).name == name || not (is_some (find_pilot (f p).name s.table)))) [
      | inl free ↦
          rw (replace_at, free)
            (commit-accepted (change_pilot name f s.table) reply s
              (unique-change f name s.table p h.unique found ∙ free)
              (fun_ext (λ other.
                find-change f name s.table p other h.unique found
                  (λ ne. free_name _ _ free (eq_of_ne (f p).name name ne)))))
      | inr taken ↦
          rw (replace_at, taken)
            (commit-refused (change_pilot name f s.table) reply s
              (unique-change f name s.table p h.unique found ∙ taken))
    ]

put-forget : (name : String) (p : Pilot) (m : Ideal) → put name p (forget name m) ≡ put name p m
put-forget name p m = fun_ext at
  where
    at : (other : String) → put name p (forget name m) other ≡ put name p m other
    at other = ground arith

replace_at_self :
    (name : String) (p : Pilot) (reply : Reply) (m : Ideal)
    → p.name ≡ name
    → replace_at name p reply m ≡ (ok reply, put name p m)
unfolding replace_at
replace_at_self name p reply m e = at p.name e
  where
    at :
        (n : String)
        → n ≡ name
        → ◌≡◌ {A = Result Reply × Ideal}
            (if n == name || not (is_some (m n))
              then (ok reply, put n p (forget name m))
              else (err integrity_error, m))
            (ok reply, put name p m)
    at n same =
        rw ((eq_iff n name).1 same, same) (ap (λ rest. (ok reply, rest)) (put-forget name p m))

store_code-Agrees :
    (name : String) (p : Pilot) (code : Result ℕ) (s : Service)
    → IsConsistent s
    → find_pilot name s.table ≡ some p
    → Agrees (store_code name code s) (store_at name p code (view s.table))
unfolding store_code store_at set_cached
store_code-Agrees name p (err e) s h found = record { same_reply = refl; same_view = refl }
store_code-Agrees name p (ok code) s h found =
    subst (Agrees (store_code name (ok code) s))
      (replace_at_self name (set_cached code p) (record { status = 200; body = cache_reloaded })
        (view s.table) (find-name s.table name found))
      (commit-change_pilot-Agrees (set_cached code) name p
        (record { status = 200; body = cache_reloaded }) s h found)

unchanged : (got : Result Reply) (s : Service) → Agrees (got, s) (got, view s.table)
unchanged got s = record { same_reply = refl; same_view = refl }

module _ (site : Site) (ask : AskStore) (s : Service) (h : IsConsistent s) where
  pub handle-Agrees :
      (c : Call) → Agrees (handle site ask c s) (answer site ask s.table c (view s.table))
  unfolding handle read_pilots create_pilot read_pilot update_pilot cache_pilot delete_pilot answer
      new_pilot
  handle-Agrees (read_all top skip) = unchanged _ s
  handle-Agrees (create d) = elim (Option-cases (find_pilot d.name s.table)) [
    | inl new ↦
        let here = commit-add-Agrees (new_pilot d) (reply_with site 200 (new_pilot d)) s h in
        rw (handle, create_pilot, answer, new) (rw new at here)
    | inr (p, old) ↦ rw (handle, create_pilot, answer, old) (unchanged _ s)
  ]
  handle-Agrees (read name) = elim (Option-cases (find_pilot name s.table)) [
    | inl new ↦ rw (handle, read_pilot, answer, new) (unchanged _ s)
    | inr (p, old) ↦ rw (handle, read_pilot, answer, old) (unchanged _ s)
  ]
  handle-Agrees (update name d) = elim (Option-cases (find_pilot name s.table)) [
    | inl new ↦
        rw (handle, update_pilot, answer, new)
          (commit-add-Agrees (new_pilot d) (reply_with site 201 (new_pilot d)) s h)
    | inr (p, old) ↦
        rw (handle, update_pilot, answer, old)
          (commit-change_pilot-Agrees (assign d) name p (reply_with site 200 (assign d p)) s h old)
  ]
  handle-Agrees (cache name) = elim (Option-cases (find_pilot name s.table)) [
    | inl new ↦ rw (handle, cache_pilot, answer, new) (unchanged _ s)
    | inr (p, old) ↦
        rw (handle, cache_pilot, answer, old)
          (store_code-Agrees name p (get_integer_code ask p) s h old)
  ]
  handle-Agrees (delete name) = elim (Option-cases (find_pilot name s.table)) [
    | inl new ↦ rw (handle, delete_pilot, answer, new) (unchanged _ s)
    | inr (p, old) ↦
        rw (handle, delete_pilot, answer, old)
          (commit-accepted (remove_pilot name s.table) (record { status = 204; body = no_content })
            s (unique-remove s.table name h.unique)
            (fun_ext (λ other. find-remove s.table name other h.unique)))
  ]

-- Where the names in the table are unique and the mounted applications are those of the table, any
-- history of requests is one that the promises allow: the answers, errors included, are those that
-- the map of the pilots gives, each page of a listing being cut from an order in which every pilot of
-- the map stands once. At the end, where applications can be generated, the path of a name leads to
-- the pilot that the map then has, and to none where it has none.
pub serve-Follows :
    (site : Site) (ask : AskStore) (resources : Listing) (calls : List Call) (s : Service)
    {mounted : List Mount}
    → IsConsistent s
    → generate_pilot_apps resources (serve site ask calls s).mounted ≡ ok mounted
    → (m : Ideal) × Follows site ask (view s.table) calls (replies site ask calls s) m
      × ((name : String) → find_mount ("/" <> (name <> "/api/v1.0")) mounted ≡ m name)
unfolding serve replies
serve-Follows site ask resources [] s {mounted} h made = (
  view s.table,
  finished,
  λ name. find_mount-generate resources s.table name (rw h.reloaded at made),
)
serve-Follows site ask resources (c ∷ calls) s h made =
    let a = handle-Agrees site ask s h c in
    let (m, later, paths) =
      serve-Follows site ask resources calls (handle site ask c s).1
        (handle-IsConsistent site ask s h c) made in
    let listed : Lists s.table (view s.table) = record { once = h.unique; all = refl } in
    let rest = replies site ask calls (handle site ask c s).1 in
    let promised : Follows site ask (view s.table) (c ∷ calls)
        ((answer site ask s.table c (view s.table)).0 ∷ rest) m =
      one_more c s.table listed (subst (λ v. Follows site ask v calls rest m) a.same_view later) in
    (
      m,
      subst (λ reply. Follows site ask (view s.table) (c ∷ calls) (reply ∷ rest) m)
          (sym a.same_reply) promised,
      paths,
    )
