-- ===== src/Auth/Keys/Sound.antt =====
-- Which keys a store gives.
use Prim.Native.String.{[], ◌∷◌}
use mathlib.Core.List.{List, [], ◌∷◌}
use text.Mathlib.TextLemmas.{append_cancel_left}
use sta_generation_service.Prelude.{
  ℕ, String, true, Option, some, ◌≡◌, ◌⊎◌, inl, inr, sym, subst, arith, Option-cases,
}
use sta_generation_service.Text.{◌<>◌}
use sta_generation_service.Auth.Keys.{
  Key, KeyCache, Provider, provider_text, cache_key, discovery_url, active_provider, add, kid_of,
  add_key, add_all, add_keys, openid_discovery, discover_and_get, get_key,
}

-- What a cache promises: it may lose entries, and it gives only what was set under the same name.
pub record Honest {C : Type 0} (cache : KeyCache C) : Type 0 where
  pub only_set :
      (c : C) (name asked : String) (entry found : String × Key) (timeout : Option ℕ)
      → cache.get (cache.set c name entry timeout) asked ≡ some found
      → ((asked ≡ name) × (found ≡ entry)) ⊎ (cache.get c asked ≡ some found)

module _ {C : Type 0} (cache : KeyCache C) (honest : Honest cache) (provider : Provider)
    (Trusts : String → Type 0) (Given : String → String × Key → Type 0) where
  -- An entry for a kid: one that was given, or of a trusted issuer with a key of this kid that the
  -- library constructs.
  abbrev pub Fit : String → String × Key → Type 0
  Fit kid (issuer, key) =
      Given kid (issuer, key)
      ⊎ (Trusts issuer × (key.kid ≡ some kid) × (provider.constructs key ≡ true))

  abbrev pub Sound : C → Type 0
  Sound c =
      (kid : String) (entry : String × Key)
      → cache.get c (cache_key provider kid) ≡ some entry
      → Fit kid entry

  cache_key-injective :
      (kid kid' : String) → cache_key provider kid ≡ cache_key provider kid' → kid ≡ kid'
  unfolding cache_key
  cache_key-injective kid kid' same = append_cancel_left ":" kid kid' (
      append_cancel_left (provider_text provider.openid_provider) (":" <> kid) (":" <> kid')
        (append_cancel_left "kid:" _ _ same))

  pub add-Sound :
      (kid issuer : String) (key : Key) (timeout : Option ℕ) (c : C)
      → Fit kid (issuer, key)
      → Sound c
      → Sound (add cache provider kid issuer key timeout c)
  unfolding add
  add-Sound kid issuer key timeout c fit sound asked entry found =
      elim (honest.only_set c (cache_key provider kid) (cache_key provider asked) (issuer, key)
        entry timeout found) [
          | inl (same, e) ↦
              subst (λ x. Fit asked x) (sym e)
                (subst (λ k. Fit k (issuer, key)) (sym (cache_key-injective asked kid same)) fit)
          | inr old ↦ sound asked entry old
        ]

  kid_of-Fit :
      (key : Key) (kid : String)
      → kid_of provider key ≡ some kid
      → (key.kid ≡ some kid) × (provider.constructs key ≡ true)
  unfolding kid_of
  kid_of-Fit key kid h = ground arith

  pub add_key-Sound :
      (issuer : String) (timeout : Option ℕ) (key : Key) (count : ℕ) (c : C)
      → Trusts issuer
      → Sound c
      → Sound (add_key cache provider issuer timeout key (count, c)).1
  unfolding add_key
  add_key-Sound issuer timeout key count c trust sound = elim (Option-cases (kid_of provider key)) [
    | inl refused ↦ rw (add_key, refused) sound
    | inr (kid, found) ↦
        let (same, valid) = kid_of-Fit key kid found in
        rw (add_key, found) (add-Sound kid issuer key timeout c (inr (trust, same, valid)) sound)
  ]

  add_all-Sound :
      (issuer : String) (timeout : Option ℕ) (keys : List Key) (state : ℕ × C)
      → Trusts issuer
      → Sound state.1
      → Sound (add_all cache provider issuer timeout keys state).1
  unfolding add_all
  add_all-Sound issuer timeout [] state trust sound = sound
  add_all-Sound issuer timeout (key ∷ keys) state trust sound =
      add_all-Sound issuer timeout keys (add_key cache provider issuer timeout key state) trust
        (add_key-Sound issuer timeout key state.0 state.1 trust sound)

  -- Keys of a trusted issuer keep a cache sound, whatever the definitions are.
  pub add_keys-Sound :
      (issuer : String) (keys : List Key) (timeout : Option ℕ) (c : C)
      → Trusts issuer
      → Sound c
      → Sound (add_keys cache provider issuer keys timeout c).1
  unfolding add_keys
  add_keys-Sound issuer keys timeout c trust sound =
      add_all-Sound issuer timeout keys (0, c) trust sound

  openid_discovery-Sound :
      (openid_provider : String) (c : C)
      → Trusts openid_provider
      → Sound c
      → Sound (openid_discovery cache provider openid_provider c).1
  unfolding openid_discovery
  openid_discovery-Sound openid_provider c trust sound =
      elim (Option-cases (provider.jwks_uri (discovery_url openid_provider))) [
        | inl failed ↦ rw (openid_discovery, failed) sound
        | inr (uri, found) ↦ elim (Option-cases (provider.published_keys uri)) [
          | inl failed ↦ rw (openid_discovery, found, failed) sound
          | inr (keys, given) ↦
              rw (openid_discovery, found, given)
                (add_keys-Sound openid_provider keys provider.keystore_timeout c trust sound)
        ]
      ]

  discover-Sound :
      (kid : String) (c : C)
      → ((p : String) → active_provider provider.openid_provider ≡ some p → Trusts p)
      → Sound c
      → Sound (discover_and_get cache provider kid c).1
        × ((entry : String × Key)
            → (discover_and_get cache provider kid c).0 ≡ some entry
            → Fit kid entry)
  unfolding discover_and_get
  discover-Sound kid c trust sound =
      elim (Option-cases (active_provider provider.openid_provider)) [
        | inl none_ ↦ rw (discover_and_get, none_) (sound, λ entry bad. absurd (cc))
        | inr (p, found) ↦
            let after = openid_discovery-Sound p c (trust p found) sound in
            rw (discover_and_get, found) (after, after kid)
      ]

-- Where the cache is honest and sound and the store's own provider is trusted, what `get_key` gives
-- for a kid is an entry that was given for it, or one of a trusted issuer with a key of this kid that
-- the library constructs; and the cache stays sound, whether a discovery took place or failed.
get_key-Sound :
    {C : Type 0} (cache : KeyCache C) (honest : Honest cache) (provider : Provider)
    (Trusts : String → Type 0) (Given : String → String × Key → Type 0) (kid : String) (c : C)
    → ((p : String) → active_provider provider.openid_provider ≡ some p → Trusts p)
    → Sound cache honest provider Trusts Given c
    → Sound cache honest provider Trusts Given (get_key cache provider kid c).1
      × ((entry : String × Key)
          → (get_key cache provider kid c).0 ≡ some entry
          → Fit cache honest provider Trusts Given kid entry)
unfolding get_key
get_key-Sound cache honest provider Trusts Given kid c trust sound =
    elim (Option-cases (cache.get c (cache_key provider kid))) [
      | inl missing ↦
          rw (get_key, missing)
            (discover-Sound cache honest provider Trusts Given kid c trust sound)
      | inr (value, found) ↦
          rw (get_key, found)
            (
              sound,
              λ entry same.
                  let e : value ≡ entry = ground arith in
                  subst (λ x. Fit cache honest provider Trusts Given kid x) e
                    (sound kid value found),
            )
    ]
