-- ===== src/Memcached/Servers/Clients.antt =====
-- The client that a cache makes: once, of all its servers, and with which options.
use mathlib.Core.List.{List, [], ◌∷◌, map}
use sta_generation_service.Prelude.{
  ℕ, String, false, Option, none, some, ◌≡◌, refl, sym, ap, ◌∙◌, All,
}
use sta_generation_service.Dict.{Dict}
use sta_generation_service.Text.Split.{has_code}
use sta_generation_service.Settings.{location}
use sta_generation_service.Memcached.Servers.{
  server_addresses, OptionValue, ClientCall, single, hashed, Improved, init, client_options,
  client_call, constructed, make_client, cache_from, get_cache,
}
use sta_generation_service.Memcached.Locations.{server_address-location, server_addresses-locations}

module _ {V K : Type 0} (construct : ClientCall V → Option K) where
  cache_from-kept :
      (o : Option K) (s s' : Improved V K) (client : K)
      → s.client ≡ o
      → cache_from construct o s ≡ (some client, s')
      → s'.client ≡ some client
  unfolding cache_from make_client
  cache_from-kept none s s' client fresh h =
      ap (λ (x : Option K × Improved V K). x.1.client) (sym h) ∙ ap (λ x. x.0) h
  cache_from-kept (some old) s s' client cached h =
      ap (λ (x : Option K × Improved V K). x.1.client) (sym h) ∙ cached ∙ ap (λ x. x.0) h

get_cache-once :
    {V K : Type 0} (construct : ClientCall V → Option K) (s s' : Improved V K) (client : K)
    → get_cache construct s ≡ (some client, s')
    → (other : ClientCall V → Option K) → get_cache other s' ≡ (some client, s')
unfolding get_cache cache_from
get_cache-once construct s s' client h other =
    ap (λ o. cache_from other o s') (cache_from-kept construct s.client s s' client refl h)

-- The call for these addresses.
abbrev pub call_for : {V : Type 0} → List (String × ℕ) → Dict (OptionValue V) → ClientCall V
call_for (address ∷ []) options = single address options
call_for addresses options = hashed addresses options

client_call-locations :
    {V : Type 0} (port : ℕ) (hosts : List String) (options : Dict (OptionValue V))
    → All (λ host. has_code b':' host ≡ false) hosts
    → client_call (map (location port) hosts) options
      ≡ some (call_for (map (λ host. (host, port)) hosts) options)
unfolding client_call server_addresses
client_call-locations port [] options free = refl
client_call-locations port (host ∷ []) options (here, _) =
    rw (client_call, server_address-location port host, here) refl
client_call-locations port (host ∷ other ∷ hosts) options free =
    rw (client_call, server_addresses-locations port (host ∷ other ∷ hosts) free) refl

-- On the first access a cache whose servers are those of the settings makes the client for all of
-- their hosts at the port, in their order: of one server where there is one host. Where that gives a
-- client, every later access gives it again and changes nothing, whatever the constructors would do
-- then. The hosts have no colon. The options are those of `client_options`.
pub get_cache-locations :
    {V K : Type 0} (construct : ClientCall V → Option K) (port : ℕ) (hosts : List String)
    (options params : Dict V)
    → All (λ host. has_code b':' host ≡ false) hosts
    → let (client, s) =
        get_cache construct (init (map (location port) hosts) options (some params)) in
      (client
        ≡ construct (call_for (map (λ host. (host, port)) hosts) (client_options options params)))
      × ((k : K)
          → client ≡ some k
          → (other : ClientCall V → Option K) → get_cache other s ≡ (some k, s))
unfolding get_cache init cache_from make_client constructed
get_cache-locations construct port hosts options params free =
    let start = init (map (location port) hosts) options (some params) in
    (
      ap (constructed construct)
          (client_call-locations port hosts (client_options options params) free),
      λ k made.
          get_cache-once construct start (get_cache construct start).1 k
            (λ i. (made i, (get_cache construct start).1)),
    )
