-- ===== src/Tests/Databases.antt =====
-- Requests with sessions of the database.
use mathlib.Core.List.{List, [], ◌∷◌}
use sta_generation_service.Prelude.{◌≡◌, ◌≤◌, refl}
use sta_generation_service.Errors.{ok, err, integrity_error, programming_error}
use sta_generation_service.Sessions.{
  Occasion, arrives, resumes, next_, throw, serve_all, exhausted, at_yield, load_pilots,
}
use sta_generation_service.Sessions.Tracked.{count, held, nothing_served, serve_all-unclosed}

-- Two requests have their sessions, and the first one raises.
abbrev two_requests : List Occasion
two_requests =
    arrives ∷ resumes 0 next_ ∷ arrives ∷ resumes 1 next_ ∷ resumes 0 (throw integrity_error) ∷ []

test_two_requests : serve_all two_requests nothing_served ≡ record {
  requests = exhausted ∷ at_yield 1 ∷ [];
  sessions = record { made = 2; unclosed = 1 ∷ [] };
}
unfolding serve_all
test_two_requests = refl

serve_all-unclosed_example :
    (count 1 (serve_all two_requests nothing_served).sessions.unclosed
      ≡ held 1 (serve_all two_requests nothing_served).requests)
    × (held 1 (serve_all two_requests nothing_served).requests ≤ 1)
serve_all-unclosed_example = serve_all-unclosed two_requests 1

test_not_migrated :
    load_pilots (λ db. err programming_error) (record { made = 4; unclosed = 3 ∷ [] })
    ≡ (ok [], record { made = 5; unclosed = 3 ∷ [] })
unfolding load_pilots
test_not_migrated = refl
