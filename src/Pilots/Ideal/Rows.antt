-- ===== src/Pilots/Ideal/Rows.antt =====
-- When the table with one more row, a changed row or one row less keeps its names unique, and the
-- map that it stands for.
use mathlib.Core.List.{List, [], ◌∷◌, ◌++◌}
use text.Mathlib.Text.{◌==◌}
use sta_generation_service.Prelude.{
  String, true, false, not, ◌&&◌, ◌||◌, none, some, is_some, if◌then◌else◌, ◌≡◌, ◌≢◌, refl, subst,
  ap, ◌∙◌, arith, eq_iff, Bool-cases, inl, inr,
}
use sta_generation_service.Models.{Pilot}
use sta_generation_service.Pilots.{find_pilot, unique_names, change_pilot, remove_pilot}
use sta_generation_service.Pilots.Ideal.{view, put, forget}

-- A row is found under its own name.
pub find-name :
    (table : List Pilot) (name : String) {p : Pilot}
    → find_pilot name table ≡ some p
    → p.name ≡ name
unfolding find_pilot
find-name [] name h = absurd (cc)
find-name (q ∷ table) name {p} h = elim (Bool-cases (q.name == name)) [
  | inl same ↦
      let here : some q ≡ some p = rw (find_pilot, same) at h in ground (arith, eq_iff q.name name)
  | inr other ↦ find-name table name (rw (find_pilot, other) at h)
]

pub find-add :
    (table : List Pilot) (p : Pilot) (name : String)
    → find_pilot p.name table ≡ none
    → find_pilot name (table ++ p ∷ []) ≡ put p.name p (view table) name
unfolding find_pilot
find-add [] p name new = refl
find-add (q ∷ table) p name new =
    ground
      (arith, eq_iff q.name p.name, eq_iff q.name name, eq_iff p.name name, find-add table p name)

is_some-add :
    (table : List Pilot) (p : Pilot) (name : String)
    → is_some (find_pilot name (table ++ p ∷ []))
      ≡ (is_some (find_pilot name table) || (p.name == name))
unfolding find_pilot
is_some-add [] p name = ground arith
is_some-add (q ∷ table) p name = ground (arith, is_some-add table p name)

pub unique-add :
    (table : List Pilot) (p : Pilot)
    → unique_names (table ++ p ∷ [])
      ≡ (unique_names table && not (is_some (find_pilot p.name table)))
unfolding find_pilot unique_names
unique-add [] p = refl
unique-add (q ∷ table) p = ground (
  arith,
  eq_iff q.name p.name,
  eq_iff p.name q.name,
  is_some-add table p q.name,
  unique-add table p,
)

find-later :
    (table : List Pilot) (q : Pilot) (name : String)
    → find_pilot name (q ∷ table) ≡ none
    → (find_pilot name table ≡ none) × ((q.name == name) ≡ false)
unfolding find_pilot
find-later table q name h = ground arith

-- The table that `change_pilot` leaves stands for the map that has `f p` in the place of `p`.
module _ (f : Pilot → Pilot) (name : String) where
  found_first :
      (table : List Pilot) (p q : Pilot)
      → (q.name == name) ≡ true
      → find_pilot name (q ∷ table) ≡ some p
      → q ≡ p
  unfolding find_pilot
  found_first table p q same found =
      let here : some q ≡ some p = rw (find_pilot, same) at found in ground arith

  find-change_first :
      (table : List Pilot) (q : Pilot) (other : String)
      → q.name ≡ name
      → find_pilot q.name table ≡ none
      → find_pilot other (f q ∷ table) ≡ put (f q).name (f q) (forget name (view (q ∷ table))) other
  unfolding find_pilot
  find-change_first table q other same none_later =
      ground (arith, eq_iff name other, eq_iff q.name other, eq_iff (f q).name other)

  find-change_later :
      (table : List Pilot) (p q : Pilot) (other : String)
      → (q.name == name) ≡ false
      → ((f p).name ≢ name → (q.name == (f p).name) ≡ false)
      → (if q.name == other then some q else put (f p).name (f p) (forget name (view table)) other)
        ≡ put (f p).name (f p) (forget name (view (q ∷ table))) other
  unfolding find_pilot
  find-change_later table p q other differs apart = ground (
    arith,
    eq_iff q.name name,
    eq_iff name other,
    eq_iff q.name other,
    eq_iff (f p).name other,
    eq_iff q.name (f p).name,
    eq_iff (f p).name name,
  )

  pub find-change :
      (table : List Pilot) (p : Pilot) (other : String)
      → unique_names table ≡ true
      → find_pilot name table ≡ some p
      → ((f p).name ≢ name → find_pilot (f p).name table ≡ none)
      → find_pilot other (change_pilot name f table)
        ≡ put (f p).name (f p) (forget name (view table)) other
  unfolding find_pilot change_pilot unique_names
  find-change [] p other unique found apart = absurd (cc)
  find-change (q ∷ table) p other unique found apart = elim (Bool-cases (q.name == name)) [
    | inl same ↦
        let e = found_first table p q same found in
        rw (change_pilot, same)
          (subst
            (λ r.
              find_pilot other (f q ∷ table)
              ≡ put (f r).name (f r) (forget name (view (q ∷ table))) other)
            e (find-change_first table q other ((eq_iff _ _).0 same) (ground arith)))
    | inr differs ↦
        let later : find_pilot name table ≡ some p = rw (find_pilot, differs) at found in
        let apart_later : ((f p).name ≢ name → find_pilot (f p).name table ≡ none) =
          λ ne. (find-later table q (f p).name (apart ne)).0 in
        let ih = find-change table p other (ground arith) later apart_later in
        rw (change_pilot, differs)
          (ap (λ o. if q.name == other then some q else o) ih
            ∙ find-change_later table p q other differs
                (λ ne. (find-later table q (f p).name (apart ne)).1))
  ]

  is_some-change :
      (table : List Pilot) (p : Pilot) (other : String)
      → unique_names table ≡ true
      → find_pilot name table ≡ some p
      → is_some (find_pilot other (change_pilot name f table))
        ≡ ((f p).name == other || (is_some (find_pilot other table) && not (name == other)))
  unfolding find_pilot change_pilot unique_names
  is_some-change [] p other unique found = absurd (cc)
  is_some-change (q ∷ table) p other unique found = elim (Bool-cases (q.name == name)) [
    | inl same ↦
        let e = found_first table p q same found in
        rw (change_pilot, same)
          (subst
            (λ r. is_some (find_pilot other (f q ∷ table)) ≡ (
              (f r).name == other
              || (is_some (find_pilot other (q ∷ table)) && not (name == other))))
            e (ground (arith, eq_iff q.name name, eq_iff name other, eq_iff q.name other)))
    | inr differs ↦
        let ih = is_some-change table p other (ground arith) (rw (find_pilot, differs) at found) in
        rw (change_pilot, differs)
          (ground (arith, ih, eq_iff q.name name, eq_iff name other, eq_iff q.name other))
  ]

  pub unique-change :
      (table : List Pilot) (p : Pilot)
      → unique_names table ≡ true
      → find_pilot name table ≡ some p
      → unique_names (change_pilot name f table)
        ≡ ((f p).name == name || not (is_some (find_pilot (f p).name table)))
  unfolding find_pilot change_pilot unique_names
  unique-change [] p unique found = absurd (cc)
  unique-change (q ∷ table) p unique found = elim (Bool-cases (q.name == name)) [
    | inl same ↦
        let e = found_first table p q same found in
        rw (change_pilot, same)
          (subst
            (λ r.
              unique_names (f q ∷ table)
              ≡ ((f r).name == name || not (is_some (find_pilot (f r).name (q ∷ table)))))
            e
            (ground (arith, eq_iff q.name name, eq_iff (f q).name name, eq_iff q.name (f q).name)))
    | inr differs ↦
        let later : find_pilot name table ≡ some p = rw (find_pilot, differs) at found in
        rw (change_pilot, differs)
          (ground (
            arith,
            unique-change table p (ground arith) later,
            is_some-change table p q.name (ground arith) later,
            eq_iff q.name name,
            eq_iff name q.name,
            eq_iff q.name (f p).name,
            eq_iff (f p).name q.name,
          ))
  ]

pub find-remove :
    (table : List Pilot) (name other : String)
    → unique_names table ≡ true
    → find_pilot other (remove_pilot name table) ≡ forget name (view table) other
unfolding find_pilot remove_pilot unique_names
find-remove [] name other unique = ground arith
find-remove (q ∷ table) name other unique = ground (
  arith,
  find-remove table name other,
  eq_iff q.name name,
  eq_iff q.name other,
  eq_iff name other,
)

pub unique-remove :
    (table : List Pilot) (name : String)
    → unique_names table ≡ true
    → unique_names (remove_pilot name table) ≡ true
unfolding find_pilot remove_pilot unique_names
unique-remove [] name unique = refl
unique-remove (q ∷ table) name unique =
    ground (arith, unique-remove table name, find-remove table name q.name)
