-- ===== src/Tests/Caches.antt =====
-- Values and servers of a cache, a database that keeps the names of what was created, and the check of the default settings.
use Prim.Native.String.{[], ◌∷◌}
use mathlib.Core.List.{List, [], ◌∷◌, map}
use text.Mathlib.Text.{◌==◌}
use sta_generation_service.Prelude.{
  ℕ, zero, suc, ◌<◌, ◌⊎◌, String, Bool, true, Option, none, some, ◌≡◌, refl, sym, eq_refl,
  if◌then◌else◌, arith, ◌∙◌, ap, take,
}
use sta_generation_service.Dict.{lookup}
use sta_generation_service.Text.{◌<>◌}
use sta_generation_service.Text.Split.{has_code}
use sta_generation_service.Settings.{
  default_main, default_database, databases, location, allowed_hosts, domain_host,
}
use sta_generation_service.Settings.Checks.{gevent_default_database}
use sta_generation_service.Memcached.{
  Cached, object, Codecs, loaded, unknown_flags, serialize_pickle, deserialize_pickle,
}
use sta_generation_service.Memcached.Entries.{Lossless, deserialize-serialize}
use sta_generation_service.Memcached.Servers.{
  server_address, ClientCall, init, client_options, get_cache,
}
use sta_generation_service.Memcached.Servers.Clients.{call_for, get_cache-locations}
use sta_generation_service.Memcached.Locations.{server_address-location}
use sta_generation_service.Migrations.{
  Command, create_table, drop_table, create_index, drop_index, add_column, drop_column, revisions,
  Apply, run, upgrade_all, downgrade_all,
}
use sta_generation_service.Migrations.Undo.{undo, adds, downgrade_all-upgrade_all}

-- Bytes are texts, and an object is a number that is pickled in unary.
abbrev unary : ℕ → String
unary zero = ""
unary (suc n) = "1" ∷ unary n

abbrev of_unary : String → ℕ
of_unary [] = 0
of_unary (c ∷ s) = suc (of_unary s)

of_unary-unary : (n : ℕ) → of_unary (unary n) ≡ n
of_unary-unary zero = refl
of_unary-unary (suc n) = ap suc (of_unary-unary n)

abbrev codecs : Codecs String ℕ
codecs = record {
  encode = λ s. s;
  decode = λ b. some b;
  dumps = unary;
  loads = λ b. some (object (of_unary b));
  repr = λ b. b;
}

codecs-Lossless : Lossless codecs
codecs-Lossless = record {
  decode_encode = λ s. refl;
  loads_dumps = λ n. ap (λ m. some (object m)) (of_unary-unary n);
}

deserialize-serialize_example :
    ((key other : String) (value : Cached String ℕ)
      → let (stored, flags) = serialize_pickle codecs key value in
        deserialize_pickle codecs other stored flags ≡ loaded value)
    × ((key : String) (value : String) (flags : ℕ)
        → (flags ≡ 0) ⊎ (3 < flags)
        → deserialize_pickle codecs key value flags
          ≡ unknown_flags ("Unknown flags for entry " <> (key <> (" with value: " <> value))))
deserialize-serialize_example = deserialize-serialize codecs codecs-Lossless

test_number : deserialize_pickle codecs "int" (unary 234) 3 ≡ loaded (object 234)
unfolding deserialize_pickle
test_number = refl

server_address-location_example :
    server_address (location 11211 "memcached")
    ≡ (if has_code b':' "memcached" then none else some ("memcached", 11211))
server_address-location_example = server_address-location 11211 "memcached"

-- The constructors give the call itself as the client.
get_cache-locations_example :
    let (client, s) =
      get_cache
        (λ call. some call)
        (init (map (location 11211) ("memcached" ∷ [])) [] (some (("IGNORE_EXC", true) ∷ []))) in
    (client
      ≡ some (call_for (("memcached", 11211) ∷ []) (client_options [] (("IGNORE_EXC", true) ∷ []))))
    × ((k : ClientCall Bool)
        → client ≡ some k
        → (other : ClientCall Bool → Option (ClientCall Bool)) → get_cache other s ≡ (some k, s))
get_cache-locations_example =
    get_cache-locations (λ call. some call) 11211 ("memcached" ∷ []) [] (("IGNORE_EXC", true) ∷ [])
      (refl, tt)

-- The name of what a command creates or drops.
abbrev named : Command → String
named (create_table table columns primary_key) = table
named (drop_table table) = table
named (create_index index table columns unique) = index
named (drop_index index table) = index
named (add_column table column) = column.name
named (drop_column table column) = column

abbrev drop_name : String → List String → Option (List String)
drop_name name [] = none
drop_name name (n ∷ ns) = if n == name then some ns else none

-- What is created is put on top, and only the top is dropped.
abbrev names : Apply (List String)
names command ns = if adds command then some (named command ∷ ns) else drop_name (named command) ns

undone :
    (command : Command) (ns ms : List String)
    → adds command ≡ true
    → names command ns ≡ some ms
    → names (undo command) ms ≡ some ns
undone (create_table table columns primary_key) ns ms h e =
    let same : table ∷ ns ≡ ms = ground arith in
    ap (drop_name table) (sym same) ∙ rw (eq_refl table) refl
undone (create_index index table columns unique) ns ms h e =
    let same : index ∷ ns ≡ ms = ground arith in
    ap (drop_name index) (sym same) ∙ rw (eq_refl index) refl
undone (add_column table column) ns ms h e =
    let same : column.name ∷ ns ≡ ms = ground arith in
    ap (drop_name column.name) (sym same) ∙ rw (eq_refl column.name) refl
undone (drop_table table) ns ms h e = absurd (cc)
undone (drop_index index table) ns ms h e = absurd (cc)
undone (drop_column table column) ns ms h e = absurd (cc)

downgrade_all-upgrade_all_example :
    run names
      (downgrade_all (take 2 revisions))
      ("description" ∷ "ix_pilots_name" ∷ "ix_pilots_id" ∷ "pilots" ∷ [])
    ≡ some []
unfolding run upgrade_all
downgrade_all-upgrade_all_example =
    downgrade_all-upgrade_all names undone 2 []
      ("description" ∷ "ix_pilots_name" ∷ "ix_pilots_id" ∷ "pilots" ∷ []) refl

-- The default settings pass the check, and allow the host of the main domain.
test_check : gevent_default_database true (databases default_database) ≡ some []
unfolding gevent_default_database databases lookup
test_check = refl

test_hosts : allowed_hosts default_main ≡ "localhost.sta" ∷ "django" ∷ []
unfolding allowed_hosts domain_host
test_hosts = refl
