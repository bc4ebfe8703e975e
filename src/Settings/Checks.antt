-- ===== src/Settings/Checks.antt =====
-- gevent_default_database of src/common/checks.py, on the settings that src/main/settings.py makes.
use mathlib.Core.List.{List, [], ◌∷◌}
use text.Mathlib.Text.{◌==◌}
use sta_generation_service.Prelude.{
  String, Bool, true, false, not, Option, none, some, if◌then◌else◌, ◌≡◌, refl,
}
use sta_generation_service.Dict.{Dict, lookup}
use sta_generation_service.Settings.{Database, Setting, string, databases}

-- The engine differs from the one that is supported; another value than a text differs too.
abbrev other_engine : Setting → Bool
other_engine (string engine) = not (engine == "django.db.backends.postgresql_psycopg2")
other_engine other = true

abbrev pub only_postgres : String
only_postgres = "when SRV_UWSGI_GEVENT is true, only postgres backend is supported"

-- The errors for a database, which may have no engine: then KeyError, which is none here.
database_errors : Option (Dict Setting) → Option (List String)
unfolding lookup
database_errors none = some []
database_errors (some database) = elim (lookup "ENGINE" database) [
  | none ↦ none
  | some engine ↦ if other_engine engine then some (only_postgres ∷ []) else some []
]

unfoldable pub gevent_default_database : Bool → Dict (Dict Setting) → Option (List String)
unfolding lookup database_errors
gevent_default_database gevent databases =
    if gevent then database_errors (lookup "default" databases) else some []

-- On the databases of the settings the check raises nothing, and it has no error exactly where gevent
-- is off or the engine is the one that is supported.
gevent_default_database-databases :
    (gevent : Bool) (database : Database)
    → let supported = database.engine == "django.db.backends.postgresql_psycopg2" in
      gevent_default_database gevent (databases database)
      ≡ some (if gevent then (if supported then [] else only_postgres ∷ []) else [])
unfolding gevent_default_database database_errors databases lookup
gevent_default_database-databases true database =
    by_engine (database.engine == "django.db.backends.postgresql_psycopg2")
  where
    by_engine :
        (b : Bool)
        → (if not b then some (only_postgres ∷ []) else some [])
          ≡ some (if b then [] else only_postgres ∷ [])
    by_engine true = refl
    by_engine false = refl
gevent_default_database-databases false database = refl
