-- ===== src/Pilots/Reloads/Alone.antt =====
-- A reload that no other one disturbs.
use mathlib.Core.List.{List, [], ◌∷◌, ◌++◌, append_assoc, append-nil}
use sta_generation_service.Prelude.{ℕ, zero, suc, true, ◌≡◌, refl, sym, ap, ◌∙◌, length}
use sta_generation_service.Models.{Pilot}
use sta_generation_service.Pilots.{Service, Reply, commit, unique_names}
use sta_generation_service.Pilots.Reloads.{
  Reload, to_clear, to_query, to_mount, Shared, go_on, turn, Event, committed, turned, happen,
  happen_all,
}

-- `count` turns of the reload at `place`, one after another.
abbrev pub turns : (count place : ℕ) → List Event
turns zero place = []
turns (suc count) place = turned place ∷ turns count place

turn-last :
    (table : List Pilot) (reloads : List Reload) (reload : Reload) (mounted : List Pilot)
    → turn table (length reloads) (reloads ++ reload ∷ []) mounted
      ≡ (reloads ++ (go_on table reload mounted).0 ∷ [], (go_on table reload mounted).1)
unfolding turn
turn-last table [] reload mounted = refl
turn-last table (first ∷ reloads) reload mounted =
    ap (λ o. (first ∷ o.0, o.1)) (turn-last table reloads reload mounted)

-- A turn of the last reload, where the others stand still.
happen-last :
    (table : List Pilot) (reloads : List Reload) (reload : Reload) (mounted : List Pilot)
    → happen
        (turned (length reloads))
        (record { table = table; mounted = mounted; reloads = reloads ++ reload ∷ [] })
      ≡ record {
        table = table;
        mounted = (go_on table reload mounted).1;
        reloads = reloads ++ (go_on table reload mounted).0 ∷ [];
      }
unfolding happen
happen-last table reloads reload mounted =
    ap (λ o. record { table = table; mounted = o.1; reloads = o.0 })
      (turn-last table reloads reload mounted)

mounts_in_turn :
    (table : List Pilot) (reloads : List Reload) (todo mounted : List Pilot)
    → happen_all
        (turns (length todo) (length reloads))
        (record { table = table; mounted = mounted; reloads = reloads ++ to_mount todo ∷ [] })
      ≡ record { table = table; mounted = mounted ++ todo; reloads = reloads ++ to_mount [] ∷ [] }
unfolding happen_all go_on
mounts_in_turn table reloads [] mounted = λ i. record {
  table = table;
  mounted = sym (append-nil mounted) i;
  reloads = reloads ++ to_mount [] ∷ [];
}
mounts_in_turn table reloads (p ∷ todo) mounted =
    ap (happen_all (turns (length todo) (length reloads)))
      (happen-last table reloads (to_mount (p ∷ todo)) mounted)
    ∙ mounts_in_turn table reloads todo (mounted ++ p ∷ [])
    ∙ λ i. record {
      table = table;
      mounted = append_assoc mounted (p ∷ []) todo i;
      reloads = reloads ++ to_mount [] ∷ [];
    }

reloaded :
    (table : List Pilot) (s : Shared)
    → happen_all (committed table ∷ turns (suc (suc (length table))) (length s.reloads)) s
      ≡ record { table = table; mounted = table; reloads = s.reloads ++ to_mount [] ∷ [] }
unfolding happen_all happen go_on
reloaded table s =
    ap (λ t. happen_all (turns (suc (length table)) (length s.reloads)) t)
      (happen-last table s.reloads to_clear s.mounted)
    ∙ ap (λ t. happen_all (turns (length table) (length s.reloads)) t)
        (happen-last table s.reloads to_query [])
    ∙ mounts_in_turn table s.reloads table []

commit-stored :
    (table : List Pilot) (reply : Reply) (s : Service)
    → unique_names table ≡ true
    → (commit table reply s).1 ≡ record { table = table; mounted = table }
unfolding commit
commit-stored table reply s unique = rw (commit, unique) refl

-- After a commit, two turns of the reload that it starts and one for each row of the table bring this
-- reload to its end, and the table and the mounted applications are then those that `commit` leaves,
-- which reloads at once.
pub happen_all-commit :
    (table : List Pilot) (reply : Reply) (s : Shared)
    → unique_names table ≡ true
    → let after =
        happen_all (committed table ∷ turns (suc (suc (length table))) (length s.reloads)) s in
      (after.reloads ≡ s.reloads ++ to_mount [] ∷ [])
      × ((commit table reply (record { table = s.table; mounted = s.mounted })).1
          ≡ record { table = after.table; mounted = after.mounted })
happen_all-commit table reply s unique =
    let e = reloaded table s in
    (
      λ i. (e i).reloads,
      commit-stored table reply _ unique
          ∙ sym (λ i. record { table = (e i).table; mounted = (e i).mounted }),
    )
