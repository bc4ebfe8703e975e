-- ===== src/Memcached/Clients.antt =====
-- PatchedHashClient of src/common/cache/pymemcached.py. HashClient, whose `add_server` it calls, and
-- its hasher stand outside.
pub mod Names
use mathlib.Core.List.{List, [], ◌∷◌}
use text.Mathlib.Text.{◌==◌}
use sta_generation_service.Prelude.{
  ℕ, String, Bool, true, false, Option, none, some, is_some, if◌then◌else◌, ◌≡◌, refl, ap, ◌∙◌,
}
use sta_generation_service.Dict.{Dict, lookup, insert, update}
use sta_generation_service.Dict.Laws.{lookup-insert}

-- The arguments of `__init__` but for the servers, with their values `V`.
pub record Arguments (V H : Type 0) : Type 0 where
  pub hasher : H
  pub serializer : V
  pub deserializer : V
  pub connect_timeout : V
  pub timeout : V
  pub no_delay : V
  pub socket_module : V
  pub key_prefix : V
  pub max_pool_size : V
  pub lock_generator : V
  pub retry_attempts : V
  pub retry_timeout : V
  pub dead_timeout : V
  pub use_pooling : Bool
  pub ignore_exc : V
  pub allow_unicode_keys : V
  pub default_noreply : V

-- The defaults of `__init__`, for RendezvousHash, the values of None, False and True, the module
-- `socket`, the empty bytes and a number.
unfoldable pub default_arguments :
    {V H : Type 0} → H → (none_ false_ true_ socket empty : V) → (ℕ → V) → Arguments V H
default_arguments hasher none_ false_ true_ socket empty number = record {
  hasher = hasher;
  serializer = none_;
  deserializer = none_;
  connect_timeout = none_;
  timeout = none_;
  no_delay = false_;
  socket_module = socket;
  key_prefix = empty;
  max_pool_size = none_;
  lock_generator = none_;
  retry_attempts = number 2;
  retry_timeout = number 1;
  dead_timeout = number 60;
  use_pooling = false;
  ignore_exc = false_;
  allow_unicode_keys = false_;
  default_noreply = true_;
}

-- The attributes of a client of several servers, with its clients `K`; `V` has the times too.
pub record HashClient (V H K : Type 0) : Type 0 where
  pub clients : Dict K
  pub retry_attempts : V
  pub retry_timeout : V
  pub dead_timeout : V
  pub use_pooling : Bool
  pub key_prefix : V
  pub ignore_exc : V
  pub allow_unicode_keys : V
  pub failed_clients : Dict V
  pub dead_clients : Dict V
  pub last_dead_check_time : V
  pub hasher : H
  pub default_kwargs : Dict V

module _ {V H : Type 0} where
  unfoldable pub default_kwargs_of : Arguments V H → Dict V
  unfolding update
  default_kwargs_of a =
      let kwargs : Dict V =
        ("connect_timeout", a.connect_timeout)
        ∷ ("timeout", a.timeout)
        ∷ ("no_delay", a.no_delay)
        ∷ ("socket_module", a.socket_module)
        ∷ ("key_prefix", a.key_prefix)
        ∷ ("serializer", a.serializer)
        ∷ ("deserializer", a.deserializer)
        ∷ ("allow_unicode_keys", a.allow_unicode_keys)
        ∷ ("default_noreply", a.default_noreply)
        ∷ [] in
      if a.use_pooling
      then update kwargs
          (("max_pool_size", a.max_pool_size) ∷ ("lock_generator", a.lock_generator) ∷ [])
      else kwargs

  -- The attributes before the servers are added.
  unfoldable pub fresh : {K : Type 0} → (now : V) → Arguments V H → HashClient V H K
  unfolding default_kwargs_of
  fresh now a = record {
    clients = [];
    retry_attempts = a.retry_attempts;
    retry_timeout = a.retry_timeout;
    dead_timeout = a.dead_timeout;
    use_pooling = a.use_pooling;
    key_prefix = a.key_prefix;
    ignore_exc = a.ignore_exc;
    allow_unicode_keys = a.allow_unicode_keys;
    failed_clients = [];
    dead_clients = [];
    last_dead_check_time = now;
    hasher = a.hasher;
    default_kwargs = default_kwargs_of a;
  }

module _ {V H K : Type 0} (add_server : String → ℕ → HashClient V H K → HashClient V H K) where
  unfoldable pub add_servers : List (String × ℕ) → HashClient V H K → HashClient V H K
  add_servers [] self = self
  add_servers ((server, port) ∷ servers) self = add_servers servers (add_server server port self)

  -- PatchedHashClient.__init__
  unfoldable pub init : (now : V) → Arguments V H → List (String × ℕ) → HashClient V H K
  unfolding fresh add_servers
  init now a servers = add_servers servers (fresh now a)

-- disconnect_all: each client quits, where `quit` acts on what is outside.
unfoldable pub disconnect_all : {K W : Type 0} → (K → W → W) → Dict K → W → W
disconnect_all quit [] w = w
disconnect_all quit ((name, client) ∷ clients) w = disconnect_all quit clients (quit client w)
