-- ===== src/Settings.antt =====
-- src/main/settings.py: the service's settings with their defaults, and the settings of django that
-- it makes of them. How the library `arguments` reads other values is outside.
pub mod Domains
pub mod Checks
pub mod Groups
pub mod Project
use Prim.Native.String.{[], ◌∷◌}
use mathlib.Core.List.{List, [], ◌∷◌, ◌++◌, map}
use text.Mathlib.Text.{◌==◌}
use sta_generation_service.Prelude.{
  ℕ, ◌*◌, String, Bool, true, false, Option, none, some, if◌then◌else◌,
}
use sta_generation_service.Dict.{Dict}
use sta_generation_service.Text.{◌<>◌, split_on}
use sta_generation_service.Text.Number.{show}
use sta_generation_service.Auth.Startup.{StartSettings}
use sta_generation_service.Auth.Tokens.{Settings}

pub record Main : Type 0 where
  pub debug : Bool
  pub secret_key : String
  pub main_domain : String
  pub secondary_domain : Option String

-- DATABASE_OPTIONS, a dict, is known by its texts.
pub record Database : Type 0 where
  pub engine : String
  pub user : String
  pub pass : String
  pub host : String
  pub port : ℕ
  pub name : String
  pub conn_max_age : ℕ
  pub options : Dict String
  pub time_zone : Option String
  pub wait : Bool
  pub wait_timeout : ℕ

pub record Cache : Type 0 where
  pub backend : String
  pub host : List String
  pub port : ℕ
  pub ignore_exc : Bool
  pub default_noreply : Bool
  pub key_prefix : String

pub record Logging : Type 0 where
  pub django_log_level : String
  pub service_log_level : String

abbrev pub default_main : Main
default_main = record {
  debug = false;
  secret_key = "vl@^dt&+!2gbol*os@5=^=xx4(wz6c9*b-ch7+nffh7ab%*403";
  main_domain = "localhost.sta";
  secondary_domain = none;
}

abbrev pub default_database : Database
default_database = record {
  engine = "django.db.backends.postgresql_psycopg2";
  user = "user";
  pass = "pass";
  host = "postgres";
  port = 5432;
  name = "main-db";
  conn_max_age = 0;
  options = [];
  time_zone = none;
  wait = false;
  wait_timeout = 10;
}

abbrev pub default_cache : Cache
default_cache = record {
  backend = "common.cache.pymemcached.PyMemcacheImproved";
  host = "memcached" ∷ [];
  port = 11211;
  ignore_exc = true;
  default_noreply = true;
  key_prefix = "";
}

abbrev pub default_logging : Logging
default_logging = record { django_log_level = "INFO"; service_log_level = "DEBUG" }

-- The groups Main and Auth, as far as the authentication of requests reads them; AUTH_COOKIE_NAME,
-- AUTH_HEADER_NAME and the timeouts are in the parameters of that model.
abbrev pub default_auth : Settings
default_auth = record {
  header_prefix = "Bearer";
  required_claims = [];
  subject_claim = "sub";
  aud = none;
}

abbrev pub default_start : StartSettings
default_start = record {
  auth_keys = [];
  add_secret_key = true;
  secret_key = default_main.secret_key;
  main_domain = default_main.main_domain;
}

-- A value of a dict of settings.
pub data Setting : Type 0 where
  string : String → Setting
  strings : List String → Setting
  number : ℕ → Setting
  flag : Bool → Setting
  entries : Dict String → Setting
  absent : Setting

abbrev pub optional : Option String → Setting
optional none = absent
optional (some s) = string s

-- DATABASES
unfoldable pub databases : Database → Dict (Dict Setting)
databases d =
    (
      "default",
      ("ENGINE", string d.engine)
          ∷ ("USER", string d.user)
          ∷ ("PASSWORD", string d.pass)
          ∷ ("HOST", string d.host)
          ∷ ("PORT", number d.port)
          ∷ ("NAME", string d.name)
          ∷ ("ATOMIC_REQUESTS", flag false)
          ∷ ("AUTOCOMMIT", flag true)
          ∷ ("CONN_MAX_AGE", number d.conn_max_age)
          ∷ ("OPTIONS", entries d.options)
          ∷ ("TIME_ZONE", optional d.time_zone)
          ∷ [],
    )
    ∷ []

-- "{}:{}".format(host, port)
unfoldable pub location : ℕ → String → String
unfolding show
location port host = host <> (":" <> show port)

-- CACHES
unfoldable pub caches : Cache → Dict (Dict Setting)
unfolding location
caches c =
    ("default", ("BACKEND", string "django.core.cache.backends.dummy.DummyCache") ∷ [])
    ∷ (
      "memcache",
      ("BACKEND", string c.backend)
          ∷ ("IGNORE_EXC", flag c.ignore_exc)
          ∷ ("DEFAULT_NOREPLY", flag c.default_noreply)
          ∷ ("LOCATION", strings (map (location c.port) c.host))
          ∷ ("KEY_PREFIX", string c.key_prefix)
          ∷ [],
    )
    ∷ ("locmem", ("BACKEND", string "django.core.cache.backends.locmem.LocMemCache") ∷ [])
    ∷ []

-- A logger; "propagate" is true where it is not given.
pub record Logger : Type 0 where
  pub handlers : List String
  pub level : String
  pub propagate : Bool

-- LOGGING["loggers"]
unfoldable pub loggers : Logging → Dict Logger
loggers l =
    ("api", record { handlers = "console" ∷ []; level = l.service_log_level; propagate = false })
    ∷ ("django.request", record { handlers = "console" ∷ []; level = "ERROR"; propagate = false })
    ∷ (
      "django.server",
      record { handlers = "console-server" ∷ []; level = l.django_log_level; propagate = false },
    )
    ∷ (
      "django",
      record { handlers = "console" ∷ []; level = l.django_log_level; propagate = false },
    )
    ∷ ("", record { handlers = "console" ∷ []; level = l.django_log_level; propagate = true })
    ∷ []

-- domain.split(":")[0]; the list has an element always.
abbrev head_text : List String → String
head_text [] = []
head_text (s ∷ rest) = s

unfoldable pub domain_host : String → String
unfolding split_on
domain_host domain = head_text (split_on b':' domain)

-- The host of the secondary domain, if that is set and not empty.
secondary_hosts : Option String → List String
unfolding domain_host
secondary_hosts none = []
secondary_hosts (some domain) = if domain == "" then [] else domain_host domain ∷ []

-- ALLOWED_HOSTS
unfoldable pub allowed_hosts : Main → List String
unfolding secondary_hosts
allowed_hosts main =
    domain_host main.main_domain ∷ secondary_hosts main.secondary_domain ++ "django" ∷ []

-- The arguments of sentry_sdk.init, where SENTRY_DSN is set.
unfoldable pub sentry : Option String → String → Option (String × String)
sentry none environment = none
sentry (some dsn) environment = if dsn == "" then none else some (dsn, environment)
