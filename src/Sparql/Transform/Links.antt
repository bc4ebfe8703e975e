-- ===== src/Sparql/Transform/Links.antt =====
-- What a handler's `transform_binding` does to the identifiers and links of an entity.
use mathlib.Core.List.{List, [], ◌∷◌}
use text.Mathlib.Text.{◌==◌}
use sta_generation_service.Prelude.{
  String, Bool, true, not, ◌&&◌, none, ◌≡◌, ◌≢◌, refl, sym, ap, fun_ext, Option-cases, inl, inr,
  ◌∙◌, arith, eq_iff, eq_refl, ◌++◌, if◌then◌else◌,
}
use sta_generation_service.Errors.{ok, key_error, or_raise, ◌>>=◌, >>=-eq-ok, >>=_assoc}
use sta_generation_service.Dict.{lookup, insert, erase}
use sta_generation_service.Dict.Laws.{lookup-insert, lookup-erase, eq_of_ne}
use sta_generation_service.Models.{
  Resource, observations, datastreams, features_of_interest, historical_locations, locations,
  observed_properties, sensors, things,
}
use sta_generation_service.Sparql.Terms.{Binding, Entity}
use sta_generation_service.Sparql.Transform.{
  rename, rename_all, self_links, navigation_links, collect, transform_binding,
}

-- No key of the list is `k`, neither old nor new.
abbrev pub Avoids : String → List (String × String) → Type 0
Avoids k [] = Unit {0}
Avoids k ((old, new) ∷ names) = (k ≢ old) × (k ≢ new) × Avoids k names

-- All old and new keys of the list are different.
abbrev Apart : List (String × String) → Type 0
Apart [] = Unit {0}
Apart ((old, new) ∷ names) = (old ≢ new) × Avoids old names × Avoids new names × Apart names

-- The old keys are gone, and the new ones hold what the old ones held.
abbrev pub Renamed : List (String × String) → Entity → Entity → Type 0
Renamed [] d e = Unit {0}
Renamed ((old, new) ∷ names) d e =
    (lookup new e ≡ lookup old d)
    × (lookup old d ≢ none)
    × (lookup old e ≡ none)
    × Renamed names d e

rename_lem :
    (old new : String) (d : Entity) {e : Entity}
    → old ≢ new
    → rename old new d ≡ ok e
    → (lookup old d ≢ none)
      × ((k : String)
          → lookup k e ≡ (if new == k then lookup old d else if old == k then none else lookup k d))
unfolding rename
rename_lem old new d {e} ne h = elim (Option-cases (lookup old d)) [
  | inl missing ↦ absurd (absent missing (rw missing at h))
  | inr (c, found) ↦
      let same : insert new c (erase old d) ≡ e = ground arith in
      (
        λ missing. cc,
        λ k.
            ap (lookup k) (sym same)
            ∙ lookup-insert new k c (erase old d)
            ∙ rw (lookup-erase old k d, found),
      )
]
  where
    absent :
        lookup old d ≡ none
        → (or_raise key_error none >>= λ c. ok (insert new c (erase old d))) ≡ ok e
        → ⊥
    absent missing bad = cc

rename_other :
    (old new k : String) (d : Entity) {e : Entity}
    → old ≢ new
    → rename old new d ≡ ok e
    → k ≢ old
    → k ≢ new
    → lookup k e ≡ lookup k d
rename_other old new k d ne h k_old k_new =
    (rename_lem old new d ne h).1 k
    ∙ rw (eq_of_ne new k (λ p. k_new (sym p)), eq_of_ne old k (λ p. k_old (sym p)))

-- A key that the list avoids keeps its cell.
rename_all-Avoids :
    (names : List (String × String)) (k : String) (d : Entity) {e : Entity}
    → Apart names
    → Avoids k names
    → rename_all names d ≡ ok e
    → lookup k e ≡ lookup k d
unfolding rename_all
rename_all-Avoids [] k d {e} apart avoids h =
    let same : d ≡ e = ground arith in ap (lookup k) (sym same)
rename_all-Avoids ((old, new) ∷ names) k d apart avoids h =
    let (d', first, rest) = >>=-eq-ok (rename old new d) (rename_all names) h in
    rename_all-Avoids names k d' apart.3 avoids.2 rest
    ∙ rename_other old new k d apart.0 first avoids.0 avoids.1

-- Renaming goes by the cells of the old keys only.
Renamed-same :
    (old new : String) (names : List (String × String)) (d d' e : Entity)
    → ((k : String) → k ≢ old → k ≢ new → lookup k d' ≡ lookup k d)
    → Avoids old names
    → Avoids new names
    → Renamed names d' e
    → Renamed names d e
Renamed-same old new [] d d' e same a b r = tt
Renamed-same old new ((o, n) ∷ names) d d' e same a b r =
    let here : lookup o d' ≡ lookup o d = same o (λ p. a.0 (sym p)) (λ p. b.0 (sym p)) in
    (r.0 ∙ here, rw (← here) r.1, r.2, Renamed-same old new names d d' e same a.2 b.2 r.3)

rename_all-Renamed :
    (names : List (String × String)) (d : Entity) {e : Entity}
    → Apart names
    → rename_all names d ≡ ok e
    → Renamed names d e
unfolding rename_all
rename_all-Renamed [] d apart h = tt
rename_all-Renamed ((old, new) ∷ names) d {e} apart h =
    let (d', first, rest) = >>=-eq-ok (rename old new d) (rename_all names) h in
    let (filled, cells) = rename_lem old new d apart.0 first in
    (
      rename_all-Avoids names new d' apart.3 apart.2 rest ∙ cells new ∙ rw (eq_refl new),
      filled,
      rename_all-Avoids names old d' apart.3 apart.1 rest
          ∙ cells old
          ∙ rw (eq_of_ne new old (λ p. apart.0 (sym p)), eq_refl old),
      Renamed-same old new names d d' e (λ k. rename_other old new k d apart.0 first) apart.1
          apart.2 (rename_all-Renamed names d' apart.3 rest),
    )

avoids : String → List (String × String) → Bool
avoids k [] = true
avoids k ((old, new) ∷ names) = not (k == old) && (not (k == new) && avoids k names)

is_apart : List (String × String) → Bool
unfolding avoids
is_apart [] = true
is_apart ((old, new) ∷ names) =
    not (old == new) && (avoids old names && (avoids new names && is_apart names))

avoids-Avoids :
    (k : String) (names : List (String × String)) → avoids k names ≡ true → Avoids k names
unfolding avoids
avoids-Avoids k [] h = tt
avoids-Avoids k ((old, new) ∷ names) h =
    ground (arith, eq_iff k old, eq_iff k new, avoids-Avoids k names)

is_apart-Apart : (names : List (String × String)) → is_apart names ≡ true → Apart names
unfolding is_apart
is_apart-Apart [] h = tt
is_apart-Apart ((old, new) ∷ names) h =
    ground (
      arith,
      eq_iff old new,
      avoids-Avoids old names,
      avoids-Avoids new names,
      is_apart-Apart names,
    )

-- All the keys that the class renames.
abbrev pub renamed : Resource → List (String × String)
renamed resource = self_links ++ navigation_links resource

is_apart-renamed : (resource : Resource) → is_apart (renamed resource) ≡ true
unfolding is_apart
is_apart-renamed observations = refl
is_apart-renamed datastreams = refl
is_apart-renamed features_of_interest = refl
is_apart-renamed historical_locations = refl
is_apart-renamed locations = refl
is_apart-renamed observed_properties = refl
is_apart-renamed sensors = refl
is_apart-renamed things = refl

rename_all-append :
    (names more : List (String × String)) (d : Entity)
    → (rename_all names d >>= rename_all more) ≡ rename_all (names ++ more) d
unfolding rename_all
rename_all-append [] more d = refl
rename_all-append ((old, new) ∷ names) more d =
    >>=_assoc (rename old new d) (rename_all names) (rename_all more)
    ∙ ap (λ next. rename old new d >>= next) (fun_ext (rename_all-append names more))

-- Of a solution that a class can transform, the dict of its first loop is taken over with every
-- key kept but the identifier and the links: the entity holds each of these under its new name and
-- none under its old name.
pub transform_binding-Renamed :
    (resource : Resource) (binding : Binding) (e : Entity)
    → transform_binding resource binding ≡ ok e
    → (d : Entity) × (collect resource binding ≡ ok d)
      × Renamed (renamed resource) d e
      × ((k : String) → Avoids k (renamed resource) → lookup k e ≡ lookup k d)
unfolding transform_binding
transform_binding-Renamed resource binding e h =
    let (d, collected, links) = >>=-eq-ok (collect resource binding) _ h in
    let apart = is_apart-Apart (renamed resource) (is_apart-renamed resource) in
    let all = rw rename_all-append at links in
    (
      d,
      collected,
      rename_all-Renamed (renamed resource) d apart all,
      λ k a. rename_all-Avoids (renamed resource) k d apart a all,
    )
