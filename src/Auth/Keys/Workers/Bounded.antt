-- ===== src/Auth/Keys/Workers/Bounded.antt =====
-- A request has its answer after a number of turns, whatever the others do.
use mathlib.Core.List.{List, [], ◌∷◌}
use sta_generation_service.Prelude.{
  ℕ, suc, ◌≤◌, String, Bool, true, false, Option, none, some, ◌≡◌, refl, arith, length,
}
use sta_generation_service.Auth.Keys.{Key, KeyCache, Provider, cache_key, active_provider}
use sta_generation_service.Auth.Keys.Workers.{
  Worker, asking, adding, asking_again, answered, discovered, after_miss, after_get, work,
}

abbrev pub is_answered : Worker → Bool
is_answered (answered kid result) = true
is_answered other = false

module _ {C : Type 0} (cache : KeyCache C) (provider : Provider) where
  -- The worker after turns in which it finds the cache in these states.
  abbrev pub sees : List C → Worker → Worker
  sees [] worker = worker
  sees (c ∷ cs) worker = sees cs (work cache provider worker c).0

  abbrev after_provider : Option String → ℕ
  after_provider none = 0
  after_provider (some p) = suc (suc (length (discovered cache provider p)))

  -- The turns that a worker has left at most.
  abbrev pub turns_left : Worker → ℕ
  turns_left (asking kid) = suc (after_provider (active_provider provider.openid_provider))
  turns_left (adding kid issuer keys) = suc (suc (length keys))
  turns_left (asking_again kid) = 1
  turns_left (answered kid result) = 0

  after_miss-turns :
      (kid : String) (o : Option String)
      → turns_left (after_miss cache provider kid o) ≤ after_provider o
  unfolding after_miss
  after_miss-turns kid none = omega arith
  after_miss-turns kid (some p) = omega arith

  after_get-turns :
      (kid : String) (found : Option (String × Key))
      → turns_left (after_get cache provider kid found)
        ≤ after_provider (active_provider provider.openid_provider)
  unfolding after_get
  after_get-turns kid none = after_miss-turns kid (active_provider provider.openid_provider)
  after_get-turns kid (some value) = omega arith

  work-turns :
      (worker : Worker) (c : C) (n : ℕ)
      → turns_left worker ≤ suc n
      → turns_left (work cache provider worker c).0 ≤ n
  unfolding work
  work-turns (asking kid) c n h =
      omega (arith, after_get-turns kid (cache.get c (cache_key provider kid)))
  work-turns (adding kid issuer []) c n h = omega arith
  work-turns (adding kid issuer (key ∷ keys)) c n h = omega arith
  work-turns (asking_again kid) c n h = omega arith
  work-turns (answered kid result) c n h = omega arith

  none_left : (worker : Worker) → turns_left worker ≤ 0 → is_answered worker ≡ true
  none_left (asking kid) h = absurd (omega arith)
  none_left (adding kid issuer keys) h = absurd (omega arith)
  none_left (asking_again kid) h = absurd (omega arith)
  none_left (answered kid result) h = refl

  sees-left :
      (cs : List C) (worker : Worker)
      → turns_left worker ≤ length cs
      → is_answered (sees cs worker) ≡ true
  sees-left [] worker h = none_left worker h
  sees-left (c ∷ cs) worker h =
      sees-left cs (work cache provider worker c).0 (work-turns worker c (length cs) h)

-- A request has its answer after at most three turns and one for each key that its provider
-- publishes, in whatever states it finds the cache at its turns; without a provider after one.
pub sees-answered :
    {C : Type 0} (cache : KeyCache C) (provider : Provider) (kid : String) (cs : List C)
    → turns_left cache provider (asking kid) ≤ length cs
    → is_answered (sees cache provider cs (asking kid)) ≡ true
sees-answered cache provider kid cs h = sees-left cache provider cs (asking kid) h
