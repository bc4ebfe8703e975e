-- ===== src/Auth/Keys/Workers/Alone.antt =====
-- A request that is alone gets what `get_key` gives.
use mathlib.Core.List.{List, [], ◌∷◌}
use sta_generation_service.Prelude.{
  ℕ, zero, suc, String, Option, ◌≡◌, refl, sym, ap, ◌∙◌, Option-cases, inl, inr, length,
}
use sta_generation_service.Auth.Keys.{
  Key, KeyCache, Provider, cache_key, discovery_url, active_provider, kid_of, add_key, add_all,
  add_keys, openid_discovery, discover_and_get, get_key,
}
use sta_generation_service.Auth.Keys.Workers.{
  Worker, asking, adding, answered, discovered, after_miss, after_get, work, work_by,
}

module _ {C : Type 0} (cache : KeyCache C) (provider : Provider) where
  -- The number of keys that were added before does not matter for the cache.
  add_key-count :
      (issuer : String) (timeout : Option ℕ) (key : Key) (m n : ℕ) (c : C)
      → (add_key cache provider issuer timeout key (m, c)).1
        ≡ (add_key cache provider issuer timeout key (n, c)).1
  unfolding add_key
  add_key-count issuer timeout key m n c = elim (Option-cases (kid_of provider key)) [
    | inl refused ↦ rw (add_key, refused) refl
    | inr (kid, found) ↦ rw (add_key, found) refl
  ]

  add_all-count :
      (issuer : String) (timeout : Option ℕ) (keys : List Key) (m n : ℕ) (c d : C)
      → c ≡ d
      → (add_all cache provider issuer timeout keys (m, c)).1
        ≡ (add_all cache provider issuer timeout keys (n, d)).1
  unfolding add_all
  add_all-count issuer timeout [] m n c d same = same
  add_all-count issuer timeout (key ∷ keys) m n c d same =
      add_all-count issuer timeout keys _ _ _ _ (
        add_key-count issuer timeout key m n c
        ∙ ap (λ e. (add_key cache provider issuer timeout key (n, e)).1) same)

  -- From the keys that are found on: each is added, and the cache is asked once more.
  work_by-adding :
      (kid issuer : String) (keys : List Key) (c : C)
      → let d = (add_all cache provider issuer provider.keystore_timeout keys (zero, c)).1 in
        work_by cache provider (suc (suc (length keys))) (adding kid issuer keys, c)
        ≡ (answered kid (cache.get d (cache_key provider kid)), d)
  unfolding work_by work add_all
  work_by-adding kid issuer [] c = refl
  work_by-adding kid issuer (key ∷ keys) c =
      let next = (add_key cache provider issuer provider.keystore_timeout key (zero, c)).1 in
      work_by-adding kid issuer keys next
      ∙ ap (λ d. (answered kid (cache.get d (cache_key provider kid)), d))
          (add_all-count issuer provider.keystore_timeout keys _ _ next next refl)

  -- The cache after a discovery is the one after its keys were added.
  discovery-discovered :
      (p : String) (c : C)
      → (openid_discovery cache provider p c).1
        ≡ (add_all cache provider p provider.keystore_timeout
            (discovered cache provider p)
            (zero, c)).1
  unfolding openid_discovery discovered add_keys add_all
  discovery-discovered p c = elim (Option-cases (provider.jwks_uri (discovery_url p))) [
    | inl failed ↦ rw (openid_discovery, discovered, failed) refl
    | inr (uri, found) ↦ elim (Option-cases (provider.published_keys uri)) [
      | inl failed ↦ rw (openid_discovery, discovered, found, failed) refl
      | inr (keys, given) ↦ rw (openid_discovery, discovered, found, given) refl
    ]
  ]

  -- A state that a worker comes to from this one by turns of its own.
  abbrev Reaches : Worker × C → Worker × C → Type 0
  Reaches start end = (n : ℕ) × (work_by cache provider n start ≡ end)

  miss-Reaches :
      (kid : String) (c : C)
      → Reaches
          (after_miss cache provider kid (active_provider provider.openid_provider), c)
          (
            answered kid (discover_and_get cache provider kid c).0,
            (discover_and_get cache provider kid c).1,
          )
  unfolding discover_and_get after_miss work_by
  miss-Reaches kid c = elim (Option-cases (active_provider provider.openid_provider)) [
    | inl missing ↦ rw (discover_and_get, missing, after_miss) (0, refl)
    | inr (p, active) ↦
        let keys = discovered cache provider p in
        rw (discover_and_get, active, after_miss)
          (
            suc (suc (length keys)),
            work_by-adding kid p keys c
                ∙ ap (λ d. (answered kid (cache.get d (cache_key provider kid)), d))
                    (sym (discovery-discovered p c)),
          )
  ]

-- A request that asks for a kid and is not disturbed has its answer after a number of turns: what
-- `get_key` gives, with the cache as `get_key` leaves it.
pub work-get_key :
    {C : Type 0} (cache : KeyCache C) (provider : Provider) (kid : String) (c : C)
    → (n : ℕ) × (work_by cache provider n (asking kid, c)
        ≡ (answered kid (get_key cache provider kid c).0, (get_key cache provider kid c).1))
unfolding get_key work_by work after_get
work-get_key cache provider kid c = elim (Option-cases (cache.get c (cache_key provider kid))) [
  | inl missing ↦
      let (n, reached) = miss-Reaches cache provider kid c in
      rw (get_key, missing)
        (
          suc n,
          ap (λ o. work_by cache provider n (after_get cache provider kid o, c)) missing ∙ reached,
        )
  | inr (value, found) ↦
      rw (get_key, found) (1, ap (λ o. (after_get cache provider kid o, c)) found)
]
