-- ===== src/Auth/Keys/Again.antt =====
-- A key that the store gives is in its cache from then on.
use sta_generation_service.Prelude.{
  String, none, some, ◌≡◌, refl, sym, ap, ◌∙◌, Option-cases, inl, inr,
}
use sta_generation_service.Auth.Keys.{
  Key, KeyCache, Provider, cache_key, active_provider, openid_discovery, discover_and_get, get_key,
}

module _ {C : Type 0} (cache : KeyCache C) (provider : Provider) (kid : String)
    (entry : String × Key) (c' : C) where
  discover-again :
      (c : C)
      → discover_and_get cache provider kid c ≡ (some entry, c')
      → cache.get c' (cache_key provider kid) ≡ some entry
  unfolding discover_and_get
  discover-again c h = elim (Option-cases (active_provider provider.openid_provider)) [
    | inl missing ↦
        let found : (none, c) ≡ (some entry, c') = rw (discover_and_get, missing) at h in
        let bad : none ≡ some entry = ap (λ x. x.0) found in absurd (cc)
    | inr (p, active) ↦
        let after = (openid_discovery cache provider p c).1 in
        let found : (cache.get after (cache_key provider kid), after) ≡ (some entry, c') =
          rw (discover_and_get, active) at h in
        let kept : after ≡ c' = ap (λ x. x.1) found in
        ap (λ d. cache.get d (cache_key provider kid)) (sym kept) ∙ ap (λ x. x.0) found
  ]

  pub get_key-hit :
      cache.get c' (cache_key provider kid) ≡ some entry
      → get_key cache provider kid c' ≡ (some entry, c')
  unfolding get_key
  get_key-hit hit = rw (get_key, hit) refl

  -- Asked again, the store gives the same entry and stays as it is.
  pub get_key-again :
      (c : C)
      → get_key cache provider kid c ≡ (some entry, c')
      → get_key cache provider kid c' ≡ (some entry, c')
  unfolding get_key
  get_key-again c h = elim (Option-cases (cache.get c (cache_key provider kid))) [
    | inl missing ↦
        let found : discover_and_get cache provider kid c ≡ (some entry, c') =
          rw (get_key, missing) at h in
        get_key-hit (discover-again c found)
    | inr (value, stored) ↦
        let found : (some value, c) ≡ (some entry, c') = rw (get_key, stored) at h in
        let kept : c ≡ c' = ap (λ x. x.1) found in
        get_key-hit
          (ap (λ d. cache.get d (cache_key provider kid)) (sym kept) ∙ stored ∙ ap (λ x. x.0) found)
  ]
