-- ===== src/Auth/Keys/Workers/Shared.antt =====
-- Requests that share a store: none gets a key that does not fit, in whatever order they work.
use mathlib.Core.List.{List, [], ◌∷◌}
use sta_generation_service.Prelude.{ℕ, zero, suc, String, Option, none, some, ◌≡◌, refl, All}
use sta_generation_service.Auth.Keys.{Key, KeyCache, Provider, cache_key, active_provider}
use sta_generation_service.Auth.Keys.Sound.{Honest, Fit, Sound, add_key-Sound}
use sta_generation_service.Auth.Keys.Workers.{
  Worker, asking, adding, asking_again, answered, after_miss, after_get, work, work_at, Turn, works,
  comes, loses, Turns, stays, turns,
}

module _ {C : Type 0} (cache : KeyCache C) (honest : Honest cache) (provider : Provider)
    (Trusts : String → Type 0) (Given : String → String × Key → Type 0) where
  -- A worker adds keys of a trusted issuer only, and what it answers fits its kid.
  abbrev pub Right : Worker → Type 0
  Right (adding kid issuer keys) = Trusts issuer
  Right (answered kid (some entry)) = Fit cache honest provider Trusts Given kid entry
  Right other = Unit {0}

module _ {C : Type 0} (cache : KeyCache C) (honest : Honest cache) (provider : Provider)
    (Trusts : String → Type 0) (Given : String → String × Key → Type 0)
    (trust : (p : String) → active_provider provider.openid_provider ≡ some p → Trusts p) where
  abbrev IsSound : C → Type 0
  IsSound = Sound cache honest provider Trusts Given

  abbrev IsRight : Worker → Type 0
  IsRight = Right cache honest provider Trusts Given

  after_get-Right :
      (kid : String) (found : Option (String × Key)) (c : C)
      → cache.get c (cache_key provider kid) ≡ found
      → IsSound c
      → IsRight (after_get cache provider kid found)
  unfolding after_get after_miss
  after_get-Right kid (some value) c h sound = sound kid value h
  after_get-Right kid none c h sound = missed (active_provider provider.openid_provider) refl
    where
      missed :
          (o : Option String)
          → active_provider provider.openid_provider ≡ o
          → IsRight (after_miss cache provider kid o)
      missed none active = tt
      missed (some p) active = trust p active

  answered-Right :
      (kid : String) (found : Option (String × Key)) (c : C)
      → cache.get c (cache_key provider kid) ≡ found
      → IsSound c
      → IsRight (answered kid found)
  answered-Right kid none c h sound = tt
  answered-Right kid (some value) c h sound = sound kid value h

  work-Right :
      (worker : Worker) (c : C)
      → IsRight worker
      → IsSound c
      → IsRight (work cache provider worker c).0 × IsSound (work cache provider worker c).1
  unfolding work
  work-Right (asking kid) c right sound = (after_get-Right kid _ c refl sound, sound)
  work-Right (adding kid issuer []) c right sound = (tt, sound)
  work-Right (adding kid issuer (key ∷ keys)) c right sound = (
    right,
    add_key-Sound cache honest provider Trusts Given issuer provider.keystore_timeout key zero c
        right sound,
  )
  work-Right (asking_again kid) c right sound = (answered-Right kid _ c refl sound, sound)
  work-Right (answered kid result) c right sound = (right, sound)

  work_at-Right :
      (place : ℕ) (workers : List Worker) (c : C)
      → All IsRight workers
      → IsSound c
      → All IsRight (work_at cache provider place workers c).0
        × IsSound (work_at cache provider place workers c).1
  unfolding work_at
  work_at-Right place [] c all sound = (tt, sound)
  work_at-Right zero (worker ∷ workers) c (right, all) sound =
      let (right', sound') = work-Right worker c right sound in ((right', all), sound')
  work_at-Right (suc place) (worker ∷ workers) c (right, all) sound =
      let (all', sound') = work_at-Right place workers c all sound in ((right, all'), sound')

  Turn-Right :
      {s t : List Worker × C}
      → Turn cache provider s t
      → All IsRight s.0 × IsSound s.1
      → All IsRight t.0 × IsSound t.1
  Turn-Right (works {workers} {c} place) (all, sound) = work_at-Right place workers c all sound
  Turn-Right (comes kid) (all, sound) = ((tt, all), sound)
  Turn-Right (loses only) (all, sound) =
      (all, λ kid entry found. sound kid entry (only (cache_key provider kid) entry found))

  Turns-Right :
      {s t : List Worker × C}
      → Turns cache provider s t
      → All IsRight s.0 × IsSound s.1
      → All IsRight t.0 × IsSound t.1
  Turns-Right stays safe = safe
  Turns-Right (turns turn rest) safe = Turns-Right rest (Turn-Right turn safe)

-- Any number of requests share a store whose cache is honest and sound at first, with a trusted
-- provider: after any turns of theirs in any order, while requests come and the cache loses entries,
-- the cache is sound, and each answer that a request has got fits the kid that it asked for.
pub shared-Right :
    {C : Type 0} (cache : KeyCache C) (honest : Honest cache) (provider : Provider)
    (Trusts : String → Type 0) (Given : String → String × Key → Type 0)
    (trust : (p : String) → active_provider provider.openid_provider ≡ some p → Trusts p)
    (workers : List Worker) (c d : C)
    → Sound cache honest provider Trusts Given c
    → Turns cache provider ([], c) (workers, d)
    → All (Right cache honest provider Trusts Given) workers
      × Sound cache honest provider Trusts Given d
shared-Right cache honest provider Trusts Given trust workers c d sound run =
    Turns-Right cache honest provider Trusts Given trust run (tt, sound)
