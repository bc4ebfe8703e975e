-- ===== src/Memcached/Servers.antt =====
-- PyMemcacheImproved of src/common/cache/pymemcached.py: the client that `_cache` makes on the first
-- access of a thread, from the servers, the options and the parameters of the cache.
pub mod Clients
use mathlib.Core.List.{List, [], ◌∷◌, map}
use sta_generation_service.Prelude.{
  ℕ, String, Bool, true, false, Option, none, some, ◌==◌, if◌then◌else◌, length,
}
use sta_generation_service.Dict.{Dict, update}
use sta_generation_service.Text.{split_on, lower}
use sta_generation_service.Text.Number.{parse_nat}

-- host, port = server.split(":") and int(port), for a port that is written in digits alone, as the
-- settings write it; none is a ValueError.
unfoldable pub two_parts : List String → Option (String × ℕ)
two_parts (host ∷ port ∷ []) = elim (parse_nat port) [ none ↦ none | some n ↦ some (host, n) ]
two_parts parts = none

unfoldable pub server_address : String → Option (String × ℕ)
unfolding two_parts split_on
server_address server = two_parts (split_on b':' server)

-- The loop over the servers, which fails with the first that fails.
unfoldable pub server_addresses : List String → Option (List (String × ℕ))
unfolding server_address
server_addresses [] = some []
server_addresses (server ∷ servers) = elim (server_address server) [
  | none ↦ none
  | some address ↦ elim (server_addresses servers) [
    | none ↦ none
    | some addresses ↦ some (address ∷ addresses)
  ]
]

-- The value of an option of a client: one of the two functions, or one that was given.
pub data OptionValue (V : Type 0) : Type 0 where
  serializer : OptionValue V
  deserializer : OptionValue V
  given : V → OptionValue V

-- The call of PatchedClient or of PatchedHashClient.
pub data ClientCall (V : Type 0) : Type 0 where
  single : String × ℕ → Dict (OptionValue V) → ClientCall V
  hashed : List (String × ℕ) → Dict (OptionValue V) → ClientCall V

-- A cache in one thread, with clients `K`; `_client_class` says the same as `_single_server`.
pub record Improved (V K : Type 0) : Type 0 where
  pub client : Option K
  pub servers : List String
  pub options : Dict V
  pub params : Dict V
  pub single_server : Option Bool

-- PyMemcacheImproved.__init__, for what BaseMemcachedCache makes of the server and the parameters.
unfoldable pub init : {V K : Type 0} → List String → Dict V → Option (Dict V) → Improved V K
init servers options params = record {
  client = none;
  servers = servers;
  options = options;
  params = elim params [ none ↦ [] | some params ↦ params ];
  single_server = none;
}

module _ {V : Type 0} where
  unfoldable pub lower_keys : Dict V → Dict V
  unfolding lower
  lower_keys params = update [] (map (λ entry. (lower entry.0, entry.1)) params)

  abbrev pub settings_of : Dict V → Dict (OptionValue V)
  settings_of entries = map (λ entry. (entry.0, given entry.1)) entries

  -- The options of a client; an update with an empty dict, which the code leaves out, changes nothing.
  unfoldable pub client_options : Dict V → Dict V → Dict (OptionValue V)
  unfolding lower_keys update
  client_options options params =
      update
        (update (("serializer", serializer) ∷ ("deserializer", deserializer) ∷ [])
          (settings_of options))
        (settings_of (lower_keys params))

  -- The call of the class, once the servers are read.
  client_call : List String → Dict (OptionValue V) → Option (ClientCall V)
  unfolding server_address server_addresses
  client_call (server ∷ []) options = elim (server_address server) [
    | none ↦ none
    | some address ↦ some (single address options)
  ]
  client_call servers options = elim (server_addresses servers) [
    | none ↦ none
    | some addresses ↦ some (hashed addresses options)
  ]

module _ {V K : Type 0} (construct : ClientCall V → Option K) where
  constructed : Option (ClientCall V) → Option K
  constructed none = none
  constructed (some call) = construct call

  -- The part of `_cache` after the test of the client; none is an exception.
  make_client : Improved V K → Option K × Improved V K
  unfolding client_call client_options lower_keys constructed
  make_client s =
      let params = lower_keys s.params in
      let client = constructed (client_call s.servers (client_options s.options s.params)) in
      (
        client,
        record s { client = client; params = params; single_server = some (length s.servers == 1) },
      )

  cache_from : Option K → Improved V K → Option K × Improved V K
  unfolding make_client
  cache_from (some client) s = (some client, s)
  cache_from none s = make_client s

  -- PyMemcacheImproved._cache
  unfoldable pub get_cache : Improved V K → Option K × Improved V K
  unfolding cache_from
  get_cache s = cache_from s.client s
