-- ===== src/Memcached.antt =====
-- src/common/cache/pymemcached.py: the cache on memcached servers. pymemcache and pickle stand
-- outside: the codecs, the constructors of clients and `add_server` are parameters.
pub mod Servers
pub mod Entries
pub mod Clients
pub mod Locations
use sta_generation_service.Prelude.{ℕ, String, Option, none, some, ◌==◌, if◌then◌else◌}
use sta_generation_service.Text.{◌<>◌}

-- A value to cache: a text, bytes, or any other object.
pub data Cached (B P : Type 0) : Type 0 where
  str : String → Cached B P
  bytes : B → Cached B P
  object : P → Cached B P

-- str.encode, bytes.decode, pickle.dumps, pickle.loads and repr(); none where they raise.
pub record Codecs (B P : Type 0) : Type 0 where
  pub encode : String → B
  pub decode : B → Option String
  pub dumps : P → B
  pub loads : B → Option (Cached B P)
  pub repr : B → String

-- A value, the Exception for unknown flags, or what a codec raises.
pub data Loaded (B P : Type 0) : Type 0 where
  loaded : Cached B P → Loaded B P
  unknown_flags : (message : String) → Loaded B P
  undecodable : Loaded B P

module _ {B P : Type 0} (codecs : Codecs B P) where
  unfoldable pub serialize_pickle : (key : String) → Cached B P → B × ℕ
  serialize_pickle key (str s) = (codecs.encode s, 1)
  serialize_pickle key (bytes b) = (b, 2)
  serialize_pickle key (object p) = (codecs.dumps p, 3)

  text_of : Option String → Loaded B P
  text_of none = undecodable
  text_of (some s) = loaded (str s)

  unpickled : Option (Cached B P) → Loaded B P
  unpickled none = undecodable
  unpickled (some value) = loaded value

  unfoldable pub deserialize_pickle : (key : String) → B → (flags : ℕ) → Loaded B P
  unfolding text_of unpickled
  deserialize_pickle key value flags =
      if flags == 1
      then text_of (codecs.decode value)
      else if flags == 2
      then loaded (bytes value)
      else if flags == 3
      then unpickled (codecs.loads value)
      else unknown_flags
          ("Unknown flags for entry " <> (key <> (" with value: " <> codecs.repr value)))
