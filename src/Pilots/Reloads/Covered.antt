-- ===== src/Pilots/Reloads/Covered.antt =====
-- No order of the turns leaves a pilot of the table without its application.
use mathlib.Core.List.{List, [], ◌∷◌, ◌++◌, Memᴰ}
use mathlib.Core.List.Memᴰ
use sta_generation_service.Prelude.{ℕ, zero, suc, ◌≡◌, ap, subst, ◌⊎◌, inl, inr, All}
use sta_generation_service.Models.{Pilot}
use sta_generation_service.Pilots.Reloads.{
  Reload, to_clear, to_query, to_mount, Shared, go_on, turn, Event, committed, turned, happen,
  happen_all,
}

-- Some reload has still to read the table, or has every pilot of the table that is not yet mounted.
pub data Owed (table mounted : List Pilot) : List Reload → Type 0 where
  clears : {reloads : List Reload} → Owed table mounted (to_clear ∷ reloads)
  queries : {reloads : List Reload} → Owed table mounted (to_query ∷ reloads)
  mounts :
      {reloads : List Reload} (todo : List Pilot)
      → ((p : Pilot) → Memᴰ p table → Memᴰ p mounted ⊎ Memᴰ p todo)
      → Owed table mounted (to_mount todo ∷ reloads)
  later :
      {reloads : List Reload} (reload : Reload)
      → Owed table mounted reloads
      → Owed table mounted (reload ∷ reloads)

-- Every pilot of the table is mounted, or will be.
abbrev pub Covered : Shared → Type 0
Covered s = ((p : Pilot) → Memᴰ p s.table → Memᴰ p s.mounted) ⊎ Owed s.table s.mounted s.reloads

-- What was mounted at the place of `p`, or will be there, is still so after one more is mounted.
mount-first :
    (p q : Pilot) (todo mounted : List Pilot)
    → Memᴰ p mounted ⊎ Memᴰ p (q ∷ todo)
    → Memᴰ p (mounted ++ q ∷ []) ⊎ Memᴰ p todo
mount-first p q todo mounted (inl m) = inl (Memᴰ.append_left (q ∷ []) m)
mount-first p q todo mounted (inr (Memᴰ.head same)) =
    inl (Memᴰ.append_right mounted (Memᴰ.head same))
mount-first p q todo mounted (inr (Memᴰ.tail m)) = inr m

module _ (table : List Pilot) where
  Owed-more :
      {mounted more : List Pilot} {reloads : List Reload}
      → ((p : Pilot) → Memᴰ p mounted → Memᴰ p more)
      → Owed table mounted reloads
      → Owed table more reloads
  Owed-more keep clears = clears
  Owed-more keep queries = queries
  Owed-more {mounted = mounted} {more = more} keep (mounts todo all) =
      mounts todo (λ p m. still p (all p m))
    where
      still : (p : Pilot) → Memᴰ p mounted ⊎ Memᴰ p todo → Memᴰ p more ⊎ Memᴰ p todo
      still p (inl m) = inl (keep p m)
      still p (inr m) = inr m
  Owed-more keep (later reload owed) = later reload (Owed-more keep owed)

  -- A turn leaves all that is mounted, or leads to a reload that has still to read the table.
  turn-keeps :
      (place : ℕ) (reloads : List Reload) (mounted : List Pilot)
      → let (next, after) = turn table place reloads mounted in
        Owed table after next ⊎ ((p : Pilot) → Memᴰ p mounted → Memᴰ p after)
  unfolding turn go_on
  turn-keeps place [] mounted = inr (λ p m. m)
  turn-keeps zero (to_clear ∷ reloads) mounted = inl queries
  turn-keeps zero (to_query ∷ reloads) mounted = inr (λ p m. m)
  turn-keeps zero (to_mount [] ∷ reloads) mounted = inr (λ p m. m)
  turn-keeps zero (to_mount (q ∷ todo) ∷ reloads) mounted = inr (λ p m. Memᴰ.append_left (q ∷ []) m)
  turn-keeps (suc place) (reload ∷ reloads) mounted = elim (turn-keeps place reloads mounted) [
    | inl owed ↦ inl (later reload owed)
    | inr keep ↦ inr keep
  ]

  turn-Owed :
      (place : ℕ) (reloads : List Reload) (mounted : List Pilot)
      → Owed table mounted reloads
      → let (next, after) = turn table place reloads mounted in Owed table after next
  unfolding turn go_on
  turn-Owed place [] mounted owed = owed
  turn-Owed zero (to_clear ∷ reloads) mounted owed = queries
  turn-Owed zero (to_query ∷ reloads) mounted owed = mounts table (λ p m. inr m)
  turn-Owed zero (to_mount [] ∷ reloads) mounted owed = owed
  turn-Owed zero (to_mount (q ∷ todo) ∷ reloads) mounted (mounts _ all) =
      mounts todo (λ p m. mount-first p q todo mounted (all p m))
  turn-Owed zero (to_mount (q ∷ todo) ∷ reloads) mounted (later _ owed) =
      later (to_mount todo) (Owed-more (λ p m. Memᴰ.append_left (q ∷ []) m) owed)
  turn-Owed (suc place) (reload ∷ reloads) mounted (later _ owed) =
      later reload (turn-Owed place reloads mounted owed)
  turn-Owed (suc place) (to_clear ∷ reloads) mounted clears = clears
  turn-Owed (suc place) (to_query ∷ reloads) mounted queries = queries
  turn-Owed (suc place) (to_mount todo ∷ reloads) mounted (mounts _ all) =
      elim (turn-keeps place reloads mounted) [
        | inl owed ↦ later (to_mount todo) owed
        | inr keep ↦ Owed-more keep (mounts todo all)
      ]

Owed-added :
    {table mounted : List Pilot} (reloads : List Reload)
    → Owed table mounted (reloads ++ to_clear ∷ [])
Owed-added [] = clears
Owed-added (reload ∷ reloads) = later reload (Owed-added reloads)

happen-Covered : (event : Event) (s : Shared) → Covered s → Covered (happen event s)
unfolding happen
happen-Covered (committed table) s covered = inr (Owed-added s.reloads)
happen-Covered (turned place) s (inr owed) = inr (turn-Owed s.table place s.reloads s.mounted owed)
happen-Covered (turned place) s (inl all) = elim (turn-keeps s.table place s.reloads s.mounted) [
  | inl owed ↦ inr owed
  | inr keep ↦ inl (λ p m. keep p (all p m))
]

-- No turn is left to a reload.
abbrev pub IsOver : Reload → Type 0
IsOver reload = reload ≡ to_mount []

abbrev still_to_mount : Reload → List Pilot
still_to_mount to_clear = []
still_to_mount to_query = []
still_to_mount (to_mount todo) = todo

-- Where all reloads are over, nothing is owed any more.
Owed-over :
    (table mounted : List Pilot) (reloads : List Reload)
    → All IsOver reloads
    → Owed table mounted reloads
    → (p : Pilot) → Memᴰ p table
    → Memᴰ p mounted
Owed-over table mounted [] over owed = elim owed [ ]
Owed-over table mounted (_ ∷ reloads) over clears = let h = over.0 in absurd (cc)
Owed-over table mounted (_ ∷ reloads) over queries = let h = over.0 in absurd (cc)
Owed-over table mounted (_ ∷ reloads) over (mounts todo all) = λ p m. done p (all p m)
  where
    done : (p : Pilot) → Memᴰ p mounted ⊎ Memᴰ p todo → Memᴰ p mounted
    done p (inl m) = m
    done p (inr m) = absurd (Memᴰ.not-nil (subst (Memᴰ p) (ap still_to_mount over.0) m))
Owed-over table mounted (_ ∷ reloads) over (later reload owed) =
    Owed-over table mounted reloads over.1 owed

happen_all-Covered : (events : List Event) (s : Shared) → Covered s → Covered (happen_all events s)
unfolding happen_all
happen_all-Covered [] s covered = covered
happen_all-Covered (event ∷ events) s covered =
    happen_all-Covered events (happen event s) (happen-Covered event s covered)

-- However the turns of reloads and the commits of requests follow each other: where every pilot of
-- the table was mounted at first, every pilot of the table as it was committed last is mounted, as it
-- stands there, when all reloads are over.
pub happen_all-mounted :
    (events : List Event) (s : Shared) (p : Pilot)
    → ((q : Pilot) → Memᴰ q s.table → Memᴰ q s.mounted)
    → All IsOver (happen_all events s).reloads
    → Memᴰ p (happen_all events s).table
    → Memᴰ p (happen_all events s).mounted
happen_all-mounted events s p all over row = elim (happen_all-Covered events s (inl all)) [
  | inl mounted ↦ mounted p row
  | inr owed ↦ Owed-over _ _ _ over owed p row
]
