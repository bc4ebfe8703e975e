-- ===== src/Settings/Groups.antt =====
-- The other groups of ServiceSettings in src/main/settings.py, with their defaults, and the whole of
-- the group Auth, of which default_auth and default_start hold what the authentication reads.
use Prim.Native.String.{[], ◌∷◌}
use mathlib.Core.List.{List, [], ◌∷◌}
use sta_generation_service.Prelude.{ℕ, ◌*◌, String, Bool, true, false, Option, none, ◌≡◌, refl}
use sta_generation_service.Dict.{Dict}
use sta_generation_service.Text.{◌<>◌}
use sta_generation_service.Auth.Keys.{Key}
use sta_generation_service.Auth.Tokens.{Settings}
use sta_generation_service.Auth.Startup.{StartSettings}
use sta_generation_service.Settings.{Main, default_main, default_auth, default_start}

pub record Api : Type 0 where
  pub service_name : String
  pub service_description : String
  pub service_version : String
  pub default_date_time_format : String
  pub service_access_role_name : String
  pub service_admin_role_name : String
  pub service_host : String
  pub service_protocol_prefix : String
  pub service_api_prefix : String

abbrev pub default_api : Api
default_api = record {
  service_name = "sta";
  service_description = "REST API for Sensorthings API";
  service_version = "v1.1.2";
  default_date_time_format = "%y-%m-%d %H:%M:%S:%f";
  service_access_role_name = "access";
  service_admin_role_name = "admin";
  service_host = "sta-sta.apps.paas-dev.psnc.pl";
  service_protocol_prefix = "https://";
  service_api_prefix = "api";
}

pub record Deployment : Type 0 where
  pub static_root : String
  pub sentry_dsn : Option String
  pub sentry_environment : String

-- The folder `base_dir` is that of the package main's parent; the environment of Sentry is the main
-- domain, unless it is given.
abbrev pub default_deployment : (base_dir : String) → Main → Deployment
default_deployment base_dir main = record {
  static_root = base_dir <> "/collected-static";
  sentry_dsn = none;
  sentry_environment = main.main_domain;
}

pub record Cors : Type 0 where
  pub origin_allow_all : Bool
  pub allow_headers : List String
  pub origin_whitelist : List String
  pub urls_regex : String

abbrev pub default_cors : Cors
default_cors = record {
  origin_allow_all = true;
  allow_headers = "*" ∷ [];
  origin_whitelist = [];
  urls_regex = "^.*$";
}

pub record Uwsgi : Type 0 where
  pub srv_uwsgi_gevent : Bool
  pub running_inside_uwsgi : Bool

abbrev pub default_uwsgi : Uwsgi
default_uwsgi = record { srv_uwsgi_gevent = true; running_inside_uwsgi = false }

-- The timeout of requests is 10.0 seconds, a float with no fraction.
pub record AuthGroup : Type 0 where
  pub openid_provider : Option String
  pub fake_openid_provider : String
  pub token_url : Option String
  pub auth_url : Option String
  pub client_auth_header_name : String
  pub cookie_name : String
  pub header_name : String
  pub header_prefix : String
  pub keystore_cache : String
  pub keystore_timeout : ℕ
  pub requests_timeout : ℕ
  pub requests_verify : Bool
  pub required_claims : List String
  pub subject_claim : String
  pub keys : Dict (Option (List Key))
  pub leeway : ℕ
  pub add_secret_key : Bool
  pub aud : Option String
  pub client_id : Option String
  pub password_length : ℕ
  pub audience_claim : String
  pub first_name_claim : String
  pub last_name_claim : String
  pub username_claim : String
  pub resources_access_claim : String
  pub roles_claim : String
  pub guest_username : String

abbrev pub default_auth_group : AuthGroup
default_auth_group = record {
  openid_provider = none;
  fake_openid_provider = "https://fake.login.sta.org";
  token_url = none;
  auth_url = none;
  client_auth_header_name = "X-CLIENT-TOKEN";
  cookie_name = "auth";
  header_name = "Authorization";
  header_prefix = "Bearer";
  keystore_cache = "locmem";
  keystore_timeout = 24 * 60 * 60;
  requests_timeout = 10;
  requests_verify = true;
  required_claims = [];
  subject_claim = "sub";
  keys = [];
  leeway = 0;
  add_secret_key = true;
  aud = none;
  client_id = none;
  password_length = 8;
  audience_claim = "aud";
  first_name_claim = "given_name";
  last_name_claim = "family_name";
  username_claim = "preferred_username";
  resources_access_claim = "resource_access";
  roles_claim = "roles";
  guest_username = "guest";
}

-- SECURE_PROXY_SSL_HEADER, the header and the value that mark a request as secure
abbrev pub secure_proxy_ssl_header : String × String
secure_proxy_ssl_header = ("HTTP_X_FORWARDED_PROTO", "https")

-- What the handlers of tokens read of the group.
abbrev pub token_settings : AuthGroup → Settings
token_settings auth = record {
  header_prefix = auth.header_prefix;
  required_claims = auth.required_claims;
  subject_claim = auth.subject_claim;
  aud = auth.aud;
}

-- What the start of the application reads of the groups Main and Auth.
abbrev pub start_settings : Main → AuthGroup → StartSettings
start_settings main auth = record {
  auth_keys = auth.keys;
  add_secret_key = auth.add_secret_key;
  secret_key = main.secret_key;
  main_domain = main.main_domain;
}

test_token_settings : token_settings default_auth_group ≡ default_auth
test_token_settings = refl

test_start_settings : start_settings default_main default_auth_group ≡ default_start
test_start_settings = refl
