-- ===== src/Pilots/Rows.antt =====
-- What a look-up by name finds after a row is added, changed or removed.
use mathlib.Core.List.{List, [], ◌∷◌, ◌++◌}
use text.Mathlib.Text.{◌==◌}
use sta_generation_service.Prelude.{
  String, Bool, true, false, not, ◌&&◌, Option, none, some, is_some, if◌then◌else◌, ◌≡◌, ◌≢◌, refl,
  sym, ap, ◌∙◌, arith, eq_iff, eq_refl, Bool-cases, inl, inr,
}
use sta_generation_service.Dict.Laws.{eq_of_ne}
use sta_generation_service.Models.{Pilot, PilotData}
use sta_generation_service.Pilots.{find_pilot, unique_names, change_pilot, remove_pilot, assign}

and-left : (a b : Bool) → (a && b) ≡ true → a ≡ true
and-left a b h = ground arith

and-right : (a b : Bool) → (a && b) ≡ true → b ≡ true
and-right a b h = ground arith

none_of_not-is_some : (o : Option Pilot) → not (is_some o) ≡ true → o ≡ none
none_of_not-is_some none h = refl
none_of_not-is_some (some p) h = cc

pub find-add_self :
    (table : List Pilot) (p : Pilot)
    → find_pilot p.name table ≡ none
    → find_pilot p.name (table ++ p ∷ []) ≡ some p
unfolding find_pilot
find-add_self [] p new = rw (eq_refl p.name)
find-add_self (q ∷ table) p new = elim (Bool-cases (q.name == p.name)) [
  | inl same ↦ absurd (found (rw (find_pilot, same) at new))
  | inr other ↦ rw (find_pilot, other) (find-add_self table p (rw (find_pilot, other) at new))
]
  where
    found : some q ≡ none → ⊥
    found bad = cc

pub find-add_ne :
    (table : List Pilot) (p : Pilot) (name : String)
    → p.name ≢ name
    → find_pilot name (table ++ p ∷ []) ≡ find_pilot name table
unfolding find_pilot
find-add_ne [] p name ne = rw (eq_of_ne p.name name ne)
find-add_ne (q ∷ table) p name ne =
    ap (λ t. if q.name == name then some q else t) (find-add_ne table p name ne)

abbrev re_assign : PilotData → Option Pilot → Option Pilot
re_assign d none = none
re_assign d (some p) = some (assign d p)

-- Where the changed table keeps its names unique, the changed row is found by its new name.
pub find-change_self :
    (table : List Pilot) (name : String) (d : PilotData) {p : Pilot}
    → find_pilot name table ≡ some p
    → unique_names (change_pilot name (assign d) table) ≡ true
    → find_pilot d.name (change_pilot name (assign d) table) ≡ some (assign d p)
unfolding find_pilot change_pilot unique_names assign
find-change_self [] name d found unique = absurd (cc)
find-change_self (q ∷ table) name d {p} found unique = elim (Bool-cases (q.name == name)) [
  | inl same ↦
      let here = rw (find_pilot, same) at found in
      rw (change_pilot, same, eq_refl d.name) (ap (λ o. re_assign d o) here)
  | inr other ↦
      let unique' = rw (change_pilot, other) at unique in
      let ih =
        find-change_self table name d (rw (find_pilot, other) at found) (and-right _ _ unique') in
      rw (change_pilot, other, find_pilot, apart q.name ih (and-left _ _ unique')) ih
]
  where
    apart :
        (n : String)
        → find_pilot d.name (change_pilot name (assign d) table) ≡ some (assign d p)
        → not (is_some (find_pilot n (change_pilot name (assign d) table))) ≡ true
        → (n == d.name) ≡ false
    apart n ih absent = elim (Bool-cases (n == d.name)) [
      | inl same ↦ let e = (eq_iff n d.name).0 same in let bad = rw (e, ih) at absent in absurd (cc)
      | inr other ↦ other
    ]

pub find-change_ne :
    (table : List Pilot) (name : String) (d : PilotData) (other : String)
    → other ≢ name
    → other ≢ d.name
    → find_pilot other (change_pilot name (assign d) table) ≡ find_pilot other table
unfolding find_pilot change_pilot assign
find-change_ne [] name d other ne ne_new = refl
find-change_ne (q ∷ table) name d other ne ne_new = ground (
  arith,
  find-change_ne table name d other,
  eq_iff q.name name,
  eq_iff q.name other,
  eq_iff d.name other,
)

pub find-remove_self :
    (table : List Pilot) (name : String)
    → unique_names table ≡ true
    → find_pilot name (remove_pilot name table) ≡ none
unfolding find_pilot remove_pilot unique_names
find-remove_self [] name unique = refl
find-remove_self (q ∷ table) name unique = elim (Bool-cases (q.name == name)) [
  | inl same ↦
      let e = (eq_iff q.name name).0 same in
      let absent : find_pilot q.name table ≡ none =
        none_of_not-is_some (find_pilot q.name table) (and-left _ _ unique) in
      rw (remove_pilot, same) (rw e at absent)
  | inr other ↦
      rw (remove_pilot, other, find_pilot, other)
        (find-remove_self table name (and-right _ _ unique))
]

pub find-remove_ne :
    (table : List Pilot) (name other : String)
    → other ≢ name
    → find_pilot other (remove_pilot name table) ≡ find_pilot other table
unfolding find_pilot remove_pilot
find-remove_ne [] name other ne = refl
find-remove_ne (q ∷ table) name other ne =
    ground (arith, find-remove_ne table name other, eq_iff q.name name, eq_iff q.name other)

-- A row that is added under a name that stays unique had a new name.
pub find_of_unique-add :
    (table : List Pilot) (p : Pilot)
    → unique_names (table ++ p ∷ []) ≡ true
    → find_pilot p.name table ≡ none
unfolding find_pilot unique_names
find_of_unique-add [] p unique = refl
find_of_unique-add (q ∷ table) p unique = elim (Bool-cases (q.name == p.name)) [
  | inl same ↦
      let e = (eq_iff q.name p.name).0 same in
      let ih = find_of_unique-add table p (and-right _ _ unique) in
      let absent : find_pilot q.name (table ++ p ∷ []) ≡ none =
        none_of_not-is_some (find_pilot q.name (table ++ p ∷ [])) (and-left _ _ unique) in
      let bad : none ≡ some p = sym (rw e at absent) ∙ find-add_self table p ih in absurd (cc)
  | inr other ↦ rw (find_pilot, other) (find_of_unique-add table p (and-right _ _ unique))
]
