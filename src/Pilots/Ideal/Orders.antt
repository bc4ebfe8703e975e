-- ===== src/Pilots/Ideal/Orders.antt =====
-- The order in which the database keeps the rows shows in the listing of the pilots alone.
use mathlib.Core.List.{List, [], ◌∷◌, Permᴰ}
use text.Mathlib.Text.{◌==◌}
use sta_generation_service.Prelude.{
  String, Bool, true, false, some, is_some, if◌then◌else◌, ◌≡◌, refl, sym, ap, fun_ext, ◌∙◌, arith,
  eq_iff, All,
}
use sta_generation_service.Models.{Pilot}
use sta_generation_service.CachedProperties.{AskStore}
use sta_generation_service.Pilots.{
  Service, Site, Call, read_all, create, read, update, cache, delete, unique_names, find_pilot,
  handle,
}
use sta_generation_service.Pilots.Invariant.{IsConsistent, handle-IsConsistent}
use sta_generation_service.Pilots.Ideal.{Ideal, view, answer, replies}
use sta_generation_service.Pilots.Ideal.Refinement.{handle-Agrees}

unique-swap :
    (p q : Pilot) (rows : List Pilot) → unique_names (p ∷ q ∷ rows) ≡ unique_names (q ∷ p ∷ rows)
unfolding unique_names find_pilot
unique-swap p q rows = ground (arith, eq_iff p.name q.name, eq_iff q.name p.name)

find-swap :
    (p q : Pilot) (rows : List Pilot) (name : String)
    → unique_names (p ∷ q ∷ rows) ≡ true
    → find_pilot name (p ∷ q ∷ rows) ≡ find_pilot name (q ∷ p ∷ rows)
unfolding unique_names find_pilot
find-swap p q rows name unique =
    ground
      (arith, eq_iff p.name q.name, eq_iff q.name p.name, eq_iff p.name name, eq_iff q.name name)

is_some-perm :
    {rows others : List Pilot} (name : String)
    → Permᴰ rows others
    → is_some (find_pilot name rows) ≡ is_some (find_pilot name others)
unfolding find_pilot
is_some-perm name Permᴰ.nil = refl
is_some-perm name (Permᴰ.cons same perm) = rw same (ground (arith, is_some-perm name perm))
is_some-perm name (Permᴰ.swap same same') = rw (same, same') (ground arith)
is_some-perm name (Permᴰ.trans perm perm') = is_some-perm name perm ∙ is_some-perm name perm'

unique-perm :
    {rows others : List Pilot} → Permᴰ rows others → unique_names rows ≡ unique_names others
unfolding unique_names find_pilot
unique-perm Permᴰ.nil = refl
unique-perm (Permᴰ.cons {a = p} {b = q} same perm) =
    rw same (ground (arith, is_some-perm q.name perm, unique-perm perm))
unique-perm (Permᴰ.swap {a' = p} {b' = q} {l = rows} same same') =
    (λ i. unique_names (same i ∷ same' i ∷ rows)) ∙ unique-swap q p rows
unique-perm (Permᴰ.trans perm perm') = unique-perm perm ∙ unique-perm perm'

view-perm :
    {rows others : List Pilot}
    → unique_names rows ≡ true
    → Permᴰ rows others
    → (name : String) → find_pilot name rows ≡ find_pilot name others
unfolding unique_names find_pilot
view-perm unique Permᴰ.nil name = refl
view-perm unique (Permᴰ.cons {a = p} {b = q} same perm) name =
    let ih = view-perm (ground arith) perm name in
    rw same (ap (λ o. if q.name == name then some q else o) ih)
view-perm unique (Permᴰ.swap {a = p} {b = q} {l = rows} same same') name =
    rw (sym same, sym same') (find-swap p q rows name unique)
view-perm unique (Permᴰ.trans perm perm') name =
    view-perm unique perm name ∙ view-perm (sym (unique-perm perm) ∙ unique) perm' name

abbrev is_listing : Call → Bool
is_listing (read_all top skip) = true
is_listing (create d) = false
is_listing (read name) = false
is_listing (update name d) = false
is_listing (cache name) = false
is_listing (delete name) = false

-- Only a listing reads the order.
answer-listing :
    (site : Site) (ask : AskStore) (c : Call) (listing other : List Pilot) (m : Ideal)
    → is_listing c ≡ false
    → answer site ask listing c m ≡ answer site ask other c m
unfolding answer
answer-listing site ask (read_all top skip) listing other m h = absurd (cc)
answer-listing site ask (create d) listing other m h = refl
answer-listing site ask (read name) listing other m h = refl
answer-listing site ask (update name d) listing other m h = refl
answer-listing site ask (cache name) listing other m h = refl
answer-listing site ask (delete name) listing other m h = refl

same_views :
    (site : Site) (ask : AskStore) (calls : List Call) (s t : Service)
    → IsConsistent s
    → IsConsistent t
    → All (λ c. is_listing c ≡ false) calls
    → view s.table ≡ view t.table
    → replies site ask calls s ≡ replies site ask calls t
unfolding replies
same_views site ask [] s t h k plain same = refl
same_views site ask (c ∷ calls) s t h k plain same =
    let a = handle-Agrees site ask s h c in
    let b = handle-Agrees site ask t k c in
    let promised =
      answer-listing site ask c s.table t.table (view s.table) plain.0
      ∙ ap (answer site ask t.table c) same in
    let reply = a.same_reply ∙ ap (λ o. o.0) promised ∙ sym b.same_reply in
    let after = a.same_view ∙ ap (λ o. o.1) promised ∙ sym b.same_view in
    let rest =
      same_views site ask calls (handle site ask c s).1 (handle site ask c t).1
        (handle-IsConsistent site ask s h c) (handle-IsConsistent site ask t k c) plain.1 after in
    λ i. reply i ∷ rest i

-- Two services whose tables have the same rows in different orders give the same answers to any
-- history of requests without a listing of all pilots.
pub replies-perm :
    (site : Site) (ask : AskStore) (calls : List Call) (s t : Service)
    → IsConsistent s
    → IsConsistent t
    → All (λ c. is_listing c ≡ false) calls
    → Permᴰ s.table t.table
    → replies site ask calls s ≡ replies site ask calls t
replies-perm site ask calls s t h k plain perm =
    same_views site ask calls s t h k plain (fun_ext (view-perm h.unique perm))
