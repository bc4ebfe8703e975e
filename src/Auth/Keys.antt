-- ===== src/Auth/Keys.antt =====
-- KeyStore of src/common/auth/base.py. The cache that holds the keys, the provider that publishes
-- them and the library that constructs them stand outside: they are parameters.
pub mod Sound
pub mod Again
pub mod Workers
use Prim.Native.String.{[], ◌∷◌}
use mathlib.Core.List.{List, [], ◌∷◌}
use text.Mathlib.Text.{◌==◌}
use sta_generation_service.Prelude.{
  ℕ, zero, ◌+◌, String, Bool, true, false, Option, none, some, if◌then◌else◌,
}
use sta_generation_service.Text.{◌<>◌, ends_with}

-- A key by what the code asks of it: whether it is a dict, as the definitions of a key set should be,
-- its "kid", and a number that tells it from others. The secret of the application is no dict.
pub record Key : Type 0 where
  pub is_dict : Bool
  pub kid : Option String
  pub number : ℕ

-- cache.get and cache.set of django's cache interface, on a state `C`.
pub record KeyCache (C : Type 0) : Type 0 where
  pub get : C → String → Option (String × Key)
  pub set : C → String → String × Key → Option ℕ → C

-- The parameters of a store: the provider, `request_json_field` for the two documents, where none
-- stands for a RequestException or a ValueError, and whether jwk.construct accepts a key.
pub record Provider : Type 0 where
  pub openid_provider : Option String
  pub jwks_uri : String → Option String
  pub published_keys : String → Option (List Key)
  pub constructs : Key → Bool
  pub keystore_timeout : Option ℕ

-- str() of the provider, which is "None" where there is none.
abbrev provider_text : Option String → String
provider_text none = "None"
provider_text (some openid_provider) = openid_provider

unfoldable pub cache_key : Provider → String → String
cache_key provider kid = "kid:" <> (provider_text provider.openid_provider <> (":" <> kid))

unfoldable pub discovery_url : String → String
unfolding ends_with
discovery_url openid_provider =
    let root : String =
      if ends_with "/" openid_provider then openid_provider else openid_provider <> "/" in
    root <> ".well-known/openid-configuration"

-- if self.openid_provider
unfoldable pub active_provider : Option String → Option String
active_provider none = none
active_provider (some openid_provider) =
    if openid_provider == "" then none else some openid_provider

-- The kid of a key that is added: of a dict with a "kid" that the library constructs.
unfoldable pub kid_of : Provider → Key → Option String
kid_of provider key =
    if key.is_dict then (if provider.constructs key then key.kid else none) else none

module _ {C : Type 0} (cache : KeyCache C) (provider : Provider) where
  unfoldable pub add : String → String → Key → Option ℕ → C → C
  unfolding cache_key
  add kid issuer key timeout c = cache.set c (cache_key provider kid) (issuer, key) timeout

  -- One round of `add_keys`, on the number of keys that were added and the cache.
  unfoldable pub add_key : String → Option ℕ → Key → ℕ × C → ℕ × C
  unfolding kid_of add
  add_key issuer timeout key (count, c) = elim (kid_of provider key) [
    | none ↦ (count, c)
    | some kid ↦ (count + 1, add kid issuer key timeout c)
  ]

  unfoldable pub add_all : String → Option ℕ → List Key → ℕ × C → ℕ × C
  unfolding add_key
  add_all issuer timeout [] state = state
  add_all issuer timeout (key ∷ keys) state =
      add_all issuer timeout keys (add_key issuer timeout key state)

  unfoldable pub add_keys : String → List Key → Option ℕ → C → ℕ × C
  unfolding add_all
  add_keys issuer keys timeout c = add_all issuer timeout keys (zero, c)

  -- Both documents are asked before any key is added; a failure adds none.
  unfoldable pub openid_discovery : String → C → ℕ × C
  unfolding discovery_url add_keys
  openid_discovery openid_provider c = elim (provider.jwks_uri (discovery_url openid_provider)) [
    | none ↦ (zero, c)
    | some jwks_uri ↦ elim (provider.published_keys jwks_uri) [
      | none ↦ (zero, c)
      | some keys ↦ add_keys openid_provider keys provider.keystore_timeout c
    ]
  ]

  -- After a discovery the cache is asked once more.
  unfoldable pub discover_and_get : String → C → Option (String × Key) × C
  unfolding cache_key active_provider openid_discovery
  discover_and_get kid c = elim (active_provider provider.openid_provider) [
    | none ↦ (none, c)
    | some openid_provider ↦
        let (count, c') = openid_discovery openid_provider c in
        (cache.get c' (cache_key provider kid), c')
  ]

  unfoldable pub get_key : String → C → Option (String × Key) × C
  unfolding cache_key discover_and_get
  get_key kid c = elim (cache.get c (cache_key provider kid)) [
    | some value ↦ (some value, c)
    | none ↦ discover_and_get kid c
  ]
