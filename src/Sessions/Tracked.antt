-- ===== src/Sessions/Tracked.antt =====
-- No session is left open.
use mathlib.Core.List.{List, [], ◌∷◌, ◌++◌}
use sta_generation_service.Prelude.{
  ℕ, zero, suc, ◌+◌, ◌==◌, ◌≤◌, if◌then◌else◌, ◌≡◌, refl, ap, ◌∙◌, arith,
}
use sta_generation_service.Errors.{Result}
use sta_generation_service.Models.{Pilot}
use sta_generation_service.Sessions.{
  Sessions, session_local, without, close, GetDb, fresh, exhausted, at_yield, Resume, next_, close_,
  throw, get_db, Served, resume_at, Occasion, arrives, resumes, serve_all, with_db, load_pilots,
  migrated_or_none,
}

abbrev pub count : ℕ → List ℕ → ℕ
count db [] = 0
count db (other ∷ rest) = (if other == db then 1 else 0) + count db rest

-- How many requests hold a session.
abbrev holds : ℕ → GetDb → ℕ
holds db fresh = 0
holds db exhausted = 0
holds db (at_yield other) = if other == db then 1 else 0

abbrev pub held : ℕ → List GetDb → ℕ
held db [] = 0
held db (request ∷ requests) = holds db request + held db requests

count-without :
    (db other : ℕ) (unclosed : List ℕ)
    → 1 ≤ count other unclosed
    → count db (without other unclosed) + (if other == db then 1 else 0) ≡ count db unclosed
unfolding without
count-without db other [] has = omega (arith, has)
count-without db other (first ∷ rest) has = ground (arith, count-without db other rest)

-- The sessions that are not closed are those that requests hold, and `extra` others; each is held
-- once, and none of them is still to be made.
pub record Tracked (extra : ℕ → ℕ) (requests : List GetDb) (s : Sessions) : Type 0 where
  pub counted : (db : ℕ) → count db s.unclosed ≡ extra db + held db requests
  pub once : (db : ℕ) → extra db + held db requests ≤ 1
  pub made : (db : ℕ) → s.made ≤ db → extra db + held db requests ≡ 0

module _ (extra : ℕ → ℕ) (requests : List GetDb) where
  -- A request that ends gives its session back, if it has one.
  close-Tracked :
      (other : ℕ) (s : Sessions)
      → Tracked extra (at_yield other ∷ requests) s
      → Tracked extra (exhausted ∷ requests) (close other s)
  unfolding close
  close-Tracked other s h = record {
    counted = λ db.
        let now = h.counted db in
        let back = count-without db other s.unclosed has in omega (arith, now, back);
    once = λ db. let now = h.once db in omega (arith, now);
    made = λ db before. let now = h.made db before in omega (arith, now);
  }
    where
      has : 1 ≤ count other s.unclosed
      has = let now = h.counted other in ground arith

  session_local-Tracked :
      (s : Sessions)
      → Tracked extra (fresh ∷ requests) s
      → let (db, after) = session_local s in Tracked extra (at_yield db ∷ requests) after
  unfolding session_local
  session_local-Tracked s h = record {
    counted = λ db. let now = h.counted db in omega (arith, now);
    once = λ db. let now = h.once db in let new = h.made db in ground (arith);
    made = λ db before. let new = h.made db in ground arith;
  }

  -- A request without a session that ends changes nothing.
  ended :
      (s : Sessions) → Tracked extra (fresh ∷ requests) s → Tracked extra (exhausted ∷ requests) s
  ended s h = record { counted = h.counted; once = h.once; made = h.made }

  get_db-Tracked :
      (how : Resume) (request : GetDb) (s : Sessions)
      → Tracked extra (request ∷ requests) s
      → let (outcome, next, after) = get_db how request s in Tracked extra (next ∷ requests) after
  unfolding get_db
  get_db-Tracked next_ fresh s h = session_local-Tracked s h
  get_db-Tracked close_ fresh s h = ended s h
  get_db-Tracked (throw e) fresh s h = ended s h
  get_db-Tracked next_ (at_yield db) s h = close-Tracked db s h
  get_db-Tracked close_ (at_yield db) s h = close-Tracked db s h
  get_db-Tracked (throw e) (at_yield db) s h = close-Tracked db s h
  get_db-Tracked next_ exhausted s h = h
  get_db-Tracked close_ exhausted s h = h
  get_db-Tracked (throw e) exhausted s h = h

-- The first request can be counted among the others.
Tracked-extra :
    (extra : ℕ → ℕ) (request : GetDb) (requests : List GetDb) (s : Sessions)
    → Tracked extra (request ∷ requests) s
    → Tracked (λ db. extra db + holds db request) requests s
Tracked-extra extra request requests s h = record {
  counted = λ db. let now = h.counted db in omega (arith, now);
  once = λ db. let now = h.once db in omega (arith, now);
  made = λ db before. let now = h.made db before in omega (arith, now);
}

Tracked-first :
    (extra : ℕ → ℕ) (request : GetDb) (requests : List GetDb) (s : Sessions)
    → Tracked (λ db. extra db + holds db request) requests s
    → Tracked extra (request ∷ requests) s
Tracked-first extra request requests s h = record {
  counted = λ db. let now = h.counted db in omega (arith, now);
  once = λ db. let now = h.once db in omega (arith, now);
  made = λ db before. let now = h.made db before in omega (arith, now);
}

resume_at-Tracked :
    (extra : ℕ → ℕ) (place : ℕ) (how : Resume) (requests : List GetDb) (s : Sessions)
    → Tracked extra requests s
    → let (next, after) = resume_at place how requests s in Tracked extra next after
unfolding resume_at
resume_at-Tracked extra place how [] s h = h
resume_at-Tracked extra zero how (request ∷ requests) s h =
    get_db-Tracked extra requests how request s h
resume_at-Tracked extra (suc place) how (request ∷ requests) s h = Tracked-first extra request _ _ (
    resume_at-Tracked (λ db. extra db + holds db request) place how requests s
      (Tracked-extra extra request requests s h))

held-arrives :
    (db : ℕ) (requests : List GetDb) → held db (requests ++ fresh ∷ []) ≡ held db requests
held-arrives db [] = refl
held-arrives db (request ∷ requests) = omega (arith, held-arrives db requests)

arrives-Tracked :
    (requests : List GetDb) (s : Sessions)
    → Tracked (λ db. 0) requests s
    → Tracked (λ db. 0) (requests ++ fresh ∷ []) s
arrives-Tracked requests s h = record {
  counted = λ db.
      let now = h.counted db in let same = held-arrives db requests in omega (arith, now, same);
  once =
      λ db. let now = h.once db in let same = held-arrives db requests in omega (arith, now, same);
  made = λ db before.
      let now = h.made db before in let same = held-arrives db requests in omega (arith, now, same);
}

abbrev pub TracksAll : Served → Type 0
TracksAll s = Tracked (λ db. 0) s.requests s.sessions

serve_all-Tracked :
    (occasions : List Occasion) (s : Served) → TracksAll s → TracksAll (serve_all occasions s)
unfolding serve_all
serve_all-Tracked [] s h = h
serve_all-Tracked (arrives ∷ occasions) s h =
    serve_all-Tracked occasions (record s { requests = s.requests ++ fresh ∷ [] })
      (arrives-Tracked s.requests s.sessions h)
serve_all-Tracked (resumes place how ∷ occasions) s h =
    serve_all-Tracked occasions _ (resume_at-Tracked (λ db. 0) place how s.requests s.sessions h)

-- Nothing is served yet, and no session was made.
abbrev pub nothing_served : Served
nothing_served = record { requests = []; sessions = record { made = 0; unclosed = [] } }

nothing-Tracked : TracksAll nothing_served
nothing-Tracked = record {
  counted = λ db. refl;
  once = λ db. omega arith;
  made = λ db before. refl;
}

-- From the start, through any arrivals of requests and any ways in which their generators are resumed,
-- with exceptions too: a session is open exactly where a request is at its yield with it, and no two
-- requests have the same one.
pub serve_all-unclosed :
    (occasions : List Occasion) (db : ℕ)
    → let after = serve_all occasions nothing_served in
      (count db after.sessions.unclosed ≡ held db after.requests) × (held db after.requests ≤ 1)
serve_all-unclosed occasions db =
    let h = serve_all-Tracked occasions nothing_served nothing-Tracked in
    let counted = h.counted db in
    let once = h.once db in (omega (arith, counted), omega (arith, once))

-- A with statement closes its session, whether its body ends or raises, where the body closes what it
-- opens; what the body comes to is what the statement comes to.
with_db-unclosed :
    {A : Type 0} (body : ℕ → Sessions → Result A × Sessions) (s : Sessions)
    → ((db : ℕ) (t : Sessions) → (body db t).1.unclosed ≡ t.unclosed)
    → ((with_db body s).1.unclosed ≡ s.unclosed)
      × ((with_db body s).0 ≡ (body s.made (session_local s).1).0)
unfolding with_db session_local close without get_db
with_db-unclosed body s keeps =
    (ap (without s.made) (keeps s.made (session_local s).1) ∙ ground arith, refl)

-- The query for the pilots leaves no session open, and where the table is missing there are no pilots.
load_pilots_lem :
    (query : ℕ → Result (List Pilot)) (s : Sessions)
    → ((load_pilots query s).1.unclosed ≡ s.unclosed)
      × ((load_pilots query s).0 ≡ migrated_or_none (query s.made))
unfolding load_pilots with_db
load_pilots_lem query s =
    with_db-unclosed (λ db t. (migrated_or_none (query db), t)) s (λ db t. refl)
