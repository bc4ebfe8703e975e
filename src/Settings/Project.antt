-- ===== src/Settings/Project.antt =====
-- The settings of django in src/main/settings.py that stand beside the databases, the caches and the
-- hosts.
use Prim.Native.String.{[], ◌∷◌}
use mathlib.Core.List.{List, [], ◌∷◌}
use sta_generation_service.Prelude.{ℕ, String, Bool, true, is_some, ◌≡◌, refl, All}
use sta_generation_service.Dict.{Dict, lookup}
use sta_generation_service.Settings.{
  Setting, string, strings, flag, optional, Logger, Logging, loggers, Database,
}
use sta_generation_service.Settings.Groups.{AuthGroup}

-- wait_for_port(DATABASE_HOST, DATABASE_PORT, WAIT_FOR_DATABASE, WAIT_FOR_DATABASE_TIMEOUT), the call
-- that the settings make before anything else; what it does is the library's.
pub record Waiting : Type 0 where
  pub host : String
  pub port : ℕ
  pub enabled : Bool
  pub timeout : ℕ

abbrev pub wait_for_database : Database → Waiting
wait_for_database d = record {
  host = d.host;
  port = d.port;
  enabled = d.wait;
  timeout = d.wait_timeout;
}

abbrev pub installed_apps : List String
installed_apps =
    "django.contrib.staticfiles" ∷ "django.contrib.contenttypes" ∷ "django.contrib.admin"
    ∷ "django.contrib.auth" ∷ "django.contrib.messages" ∷ "django.contrib.sessions"
    ∷ "django_extensions" ∷ "django_filters" ∷ "watchman" ∷ "drf_yasg" ∷ "corsheaders" ∷ "common"
    ∷ "rest_framework" ∷ []

abbrev pub middleware : List String
middleware =
    "corsheaders.middleware.CorsMiddleware" ∷ "django.middleware.security.SecurityMiddleware"
    ∷ "django.middleware.common.CommonMiddleware" ∷ "django.middleware.csrf.CsrfViewMiddleware"
    ∷ "django.middleware.clickjacking.XFrameOptionsMiddleware"
    ∷ "django.contrib.sessions.middleware.SessionMiddleware"
    ∷ "common.auth.django.TokenAuthenticationMiddleware"
    ∷ "django.contrib.auth.middleware.AuthenticationMiddleware"
    ∷ "django.contrib.messages.middleware.MessageMiddleware" ∷ []

pub record Template : Type 0 where
  pub backend : String
  pub dirs : List String
  pub app_dirs : Bool
  pub context_processors : List String

abbrev pub templates : List Template
templates =
    record {
      backend = "django.template.backends.django.DjangoTemplates";
      dirs = [];
      app_dirs = true;
      context_processors =
          "django.template.context_processors.debug" ∷ "django.template.context_processors.request"
          ∷ "django.contrib.auth.context_processors.auth"
          ∷ "django.contrib.messages.context_processors.messages" ∷ [];
    }
    ∷ []

-- SWAGGER_SETTINGS["SECURITY_DEFINITIONS"]
unfoldable pub security_definitions : AuthGroup → Dict (Dict Setting)
security_definitions auth =
    (
      "OAUTH2",
      ("type", string "oauth2")
          ∷ ("flow", string "accessCode")
          ∷ ("name", string auth.header_name)
          ∷ ("in", string "header")
          ∷ ("tokenUrl", optional auth.token_url)
          ∷ ("authorizationUrl", optional auth.auth_url)
          ∷ ("scopes", string "openid roles")
          ∷ [],
    )
    ∷ (
      "Bearer",
      ("type", string "apiKey") ∷ ("name", string auth.header_name) ∷ ("in", string "header") ∷ [],
    )
    ∷ (
      "Client",
      ("type", string "apiKey")
          ∷ ("name", string auth.client_auth_header_name)
          ∷ ("in", string "header")
          ∷ [],
    )
    ∷ []

-- LOGGING["formatters"]
abbrev pub formatters : Dict (Dict Setting)
formatters =
    (
      "simple",
      ("format", string "[%(asctime)s] %(name)s:%(lineno)d %(levelname)s: %(message)s") ∷ [],
    )
    ∷ (
      "console-server",
      ("format", string "[%(asctime)s] %(message)s")
          ∷ ("datefmt", string "%d/%b/%Y:%H:%M:%S %z")
          ∷ [],
    )
    ∷ []

pub record LogHandler : Type 0 where
  pub class_ : String
  pub formatter : String

-- LOGGING["handlers"]
abbrev pub handlers : Dict LogHandler
handlers =
    ("console", record { class_ = "logging.StreamHandler"; formatter = "simple" })
    ∷ ("console-server", record { class_ = "logging.StreamHandler"; formatter = "console-server" })
    ∷ []

-- The settings of other kinds: the addresses that the framework is told, languages and times, the
-- checks of watchman, and the security of answers.
abbrev pub addresses : Dict Setting
addresses =
    ("ROOT_URLCONF", string "main.urls")
    ∷ ("LOGIN_URL", string "rest_framework:login")
    ∷ ("LOGOUT_URL", string "rest_framework:logout")
    ∷ ("LOGIN_REDIRECT_URL", string "/")
    ∷ ("LOGOUT_REDIRECT_URL", string "/")
    ∷ ("WSGI_APPLICATION", string "main.wsgi.application")
    ∷ []

abbrev pub languages : Dict Setting
languages =
    ("LANGUAGE_CODE", string "en-us")
    ∷ ("TIME_ZONE", string "UTC")
    ∷ ("USE_I18N", flag true)
    ∷ ("USE_L10N", flag true)
    ∷ ("USE_TZ", flag true)
    ∷ ("STATIC_URL", string "/api/static/")
    ∷ []

abbrev pub watchman_checks : List String
watchman_checks =
    "watchman.checks.databases" ∷ "watchman.checks.caches" ∷ "common.checks.django" ∷ []

abbrev pub security : Dict Setting
security =
    ("SECURE_CONTENT_TYPE_NOSNIFF", flag true)
    ∷ ("SECURE_BROWSER_XSS_FILTER", flag true)
    ∷ ("CSRF_COOKIE_SECURE", flag true)
    ∷ ("X_FRAME_OPTIONS", string "DENY")
    ∷ ("SILENCED_SYSTEM_CHECKS", strings ("security.W004" ∷ "security.W008" ∷ []))
    ∷ ("DEFAULT_AUTO_FIELD", string "django.db.models.AutoField")
    ∷ []

-- A name of the configuration of logging leads to an entry.
abbrev Has {ℓ} : {V : Type ℓ} → Dict V → String → Type 0
Has d name = is_some (lookup name d) ≡ true

-- Whatever the levels are, each logger has handlers that exist, and each handler a formatter that
-- exists.
loggers-Has :
    (l : Logging)
    → All (λ (e : String × Logger). All (Has handlers) e.1.handlers) (loggers l)
      × All (λ (e : String × LogHandler). Has formatters e.1.formatter) handlers
unfolding loggers lookup
loggers-Has l =
    (((refl, tt), ((refl, tt), ((refl, tt), ((refl, tt), ((refl, tt), tt))))), (refl, (refl, tt)))
