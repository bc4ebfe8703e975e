-- ===== src/Auth/Keys/Workers.antt =====
-- KeyStore.get of src/common/auth/base.py in the small: several requests ask one store at a time, and
-- each access to the shared cache is a turn of its own.
pub mod Alone
pub mod Shared
pub mod Bounded
use mathlib.Core.List.{List, [], ◌∷◌}
use sta_generation_service.Prelude.{ℕ, zero, suc, String, Option, none, some, ◌≡◌}
use sta_generation_service.Auth.Keys.{
  Key, KeyCache, Provider, cache_key, discovery_url, active_provider, add_key,
}

-- What a request that asks for a kid does next: it asks the cache, adds keys of an issuer one by one,
-- asks once more, or has its answer.
pub data Worker : Type 0 where
  asking : (kid : String) → Worker
  adding : (kid issuer : String) → List Key → Worker
  asking_again : (kid : String) → Worker
  answered : (kid : String) → Option (String × Key) → Worker

module _ {C : Type 0} (cache : KeyCache C) (provider : Provider) where
  -- The keys that a discovery finds: none where a document fails.
  unfoldable pub discovered : String → List Key
  unfolding discovery_url
  discovered openid_provider = elim (provider.jwks_uri (discovery_url openid_provider)) [
    | none ↦ []
    | some jwks_uri ↦ elim (provider.published_keys jwks_uri) [ none ↦ [] | some keys ↦ keys ]
  ]

  after_miss : String → Option String → Worker
  unfolding discovered
  after_miss kid none = answered kid none
  after_miss kid (some openid_provider) = adding kid openid_provider (discovered openid_provider)

  after_get : String → Option (String × Key) → Worker
  unfolding after_miss active_provider
  after_get kid (some value) = answered kid (some value)
  after_get kid none = after_miss kid (active_provider provider.openid_provider)

  -- One turn of a worker.
  unfoldable pub work : Worker → C → Worker × C
  unfolding after_get cache_key add_key
  work (asking kid) c = (after_get kid (cache.get c (cache_key provider kid)), c)
  work (adding kid issuer []) c = (asking_again kid, c)
  work (adding kid issuer (key ∷ keys)) c = (
    adding kid issuer keys,
    (add_key cache provider issuer provider.keystore_timeout key (zero, c)).1,
  )
  work (asking_again kid) c = (answered kid (cache.get c (cache_key provider kid)), c)
  work (answered kid result) c = (answered kid result, c)

  -- Turns of one worker with no other in between.
  unfoldable pub work_by : ℕ → Worker × C → Worker × C
  unfolding work
  work_by zero state = state
  work_by (suc n) (worker, c) = work_by n (work worker c)

  -- The turn of the worker at a place.
  unfoldable pub work_at : ℕ → List Worker → C → List Worker × C
  unfolding work
  work_at place [] c = ([], c)
  work_at zero (worker ∷ workers) c = let (worker', c') = work worker c in (worker' ∷ workers, c')
  work_at (suc place) (worker ∷ workers) c =
      let (workers', c') = work_at place workers c in (worker ∷ workers', c')

  -- A worker takes its turn, a request comes with a kid, or the cache loses entries.
  pub data Turn : List Worker × C → List Worker × C → Type 0 where
    works :
        {workers : List Worker} {c : C} (place : ℕ) → Turn (workers, c) (work_at place workers c)
    comes :
        {workers : List Worker} {c : C} (kid : String) → Turn (workers, c) (asking kid ∷ workers, c)
    loses :
        {workers : List Worker} {c d : C}
        → ((name : String) (entry : String × Key)
            → cache.get d name ≡ some entry
            → cache.get c name ≡ some entry)
        → Turn (workers, c) (workers, d)

  pub data Turns : List Worker × C → List Worker × C → Type 0 where
    stays : {s : List Worker × C} → Turns s s
    turns : {r s t : List Worker × C} → Turn r s → Turns s t → Turns r t
