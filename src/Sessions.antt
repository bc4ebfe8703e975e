-- ===== src/Sessions.antt =====
-- The sessions of the database: get_db and get_db_manager of sta/src/utils.py, and the query for the
-- pilots of sta/src/main.py. Both are one generator with a try and a finally; the framework drives the
-- generator of a request, and contextlib that of a with statement.
pub mod Tracked
use mathlib.Core.List.{List, [], ◌∷◌, ◌++◌}
use sta_generation_service.Prelude.{ℕ, String, zero, suc, ◌+◌, ◌==◌, if◌then◌else◌}
use sta_generation_service.Errors.{
  Error, Result, ok, err, key_error, programming_error, or_raise, ◌>>=◌,
}
use sta_generation_service.Dict.{Dict, lookup}
use sta_generation_service.Text.{◌<>◌}
use sta_generation_service.Models.{Pilot}

-- How many sessions were made, and those that are not closed.
pub record Sessions : Type 0 where
  pub made : ℕ
  pub unclosed : List ℕ

-- SessionLocal()
unfoldable pub session_local : Sessions → ℕ × Sessions
session_local s = (s.made, record { made = s.made + 1; unclosed = s.made ∷ s.unclosed })

without : ℕ → List ℕ → List ℕ
without db [] = []
without db (open_ ∷ rest) = if open_ == db then rest else open_ ∷ without db rest

-- db.close()
unfoldable pub close : ℕ → Sessions → Sessions
unfolding without
close db s = record s { unclosed = without db s.unclosed }

-- A generator: before its first statement, at its yield with its session, or at its end.
pub data GetDb : Type 0 where
  fresh exhausted : GetDb
  at_yield : (db : ℕ) → GetDb

-- How a generator is resumed: by next(), with an exception that is thrown in, or by close().
pub data Resume : Type 0 where
  next_ close_ : Resume
  throw : Error → Resume

-- What the caller gets: the session, the end of the iteration, or an exception.
pub data Outcome : Type 0 where
  yielded : (db : ℕ) → Outcome
  stopped : Outcome
  raised : Error → Outcome

-- What resuming comes to where the generator does not yield.
ending : Resume → Outcome
ending next_ = stopped
ending close_ = stopped
ending (throw e) = raised e

unfoldable pub get_db : Resume → GetDb → Sessions → Outcome × GetDb × Sessions
unfolding session_local close ending
get_db next_ fresh s = let (db, after) = session_local s in (yielded db, at_yield db, after)
get_db how fresh s = (ending how, exhausted, s)
get_db how (at_yield db) s = (ending how, exhausted, close db s)
get_db how exhausted s = (ending how, exhausted, s)

-- The requests that are served at one time, each with its generator, and the sessions they share.
pub record Served : Type 0 where
  pub requests : List GetDb
  pub sessions : Sessions

unfoldable pub resume_at : ℕ → Resume → List GetDb → Sessions → List GetDb × Sessions
unfolding get_db
resume_at place how [] s = ([], s)
resume_at zero how (request ∷ requests) s =
    let (outcome, next, after) = get_db how request s in (next ∷ requests, after)
resume_at (suc place) how (request ∷ requests) s =
    let (later, after) = resume_at place how requests s in (request ∷ later, after)

-- A new request comes, or the generator of the request at a place is resumed.
pub data Occasion : Type 0 where
  arrives : Occasion
  resumes : (place : ℕ) → Resume → Occasion

unfoldable pub serve_all : List Occasion → Served → Served
unfolding resume_at
serve_all [] s = s
serve_all (arrives ∷ occasions) s =
    serve_all occasions (record s { requests = s.requests ++ fresh ∷ [] })
serve_all (resumes place how ∷ occasions) s =
    let (requests, sessions) = resume_at place how s.requests s.sessions in
    serve_all occasions (record { requests = requests; sessions = sessions })

-- with get_db_manager() as db: body
module _ {A : Type 0} (body : ℕ → Sessions → Result A × Sessions) where
  -- How the manager resumes its generator after the body.
  after_body : Result A → Resume
  after_body (ok a) = next_
  after_body (err e) = throw e

  unfoldable pub with_db : Sessions → Result A × Sessions
  unfolding session_local get_db after_body
  with_db s =
      let (db, entered) = session_local s in
      let (result, left) = body db entered in
      let (outcome, generator, closed) = get_db (after_body result) (at_yield db) left in
      (result, closed)

-- except ProgrammingError: pilots = []
unfoldable pub migrated_or_none : Result (List Pilot) → Result (List Pilot)
migrated_or_none (err programming_error) = ok []
migrated_or_none result = result

-- The query of `generate_pilot_apps`, with what it comes to in a session.
unfoldable pub load_pilots :
    (query : ℕ → Result (List Pilot)) → Sessions → Result (List Pilot) × Sessions
unfolding with_db migrated_or_none
load_pilots query = with_db (λ db s. (migrated_or_none (query db), s))

-- os.environ[key]
from_environ : Dict String → (key : String) → Result String
unfolding lookup
from_environ environ key = or_raise key_error (lookup key environ)

-- SQLALCHEMY_DATABASE_URL, the address of the engine
unfoldable pub database_url : (environ : Dict String) → Result String
unfolding from_environ
database_url environ = from_environ environ "DATABASE_USER" >>= λ user.
    from_environ environ "DATABASE_PASS" >>= λ pass.
    from_environ environ "DATABASE_HOST" >>= λ host.
    from_environ environ "DATABASE_PORT" >>= λ port.
    from_environ environ "DATABASE_NAME" >>= λ name. ok (
      "postgresql://"
      <> (user <> (":" <> (pass <> ("@" <> (host <> (":" <> (port <> ("/" <> name)))))))))
