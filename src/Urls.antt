-- ===== src/Urls.antt =====
-- The addresses of the django project: src/main/urls.py, src/common/urls.py and src/swagger/urls.py,
-- and the start of its commands, src/manage.py.
-- A pattern is the text that it begins with and, for a view, the texts that it may be; the path has no
-- slash at its front.
use Prim.Native.String.{[], ◌∷◌}
use mathlib.Core.List.{List, [], ◌∷◌}
use text.Mathlib.Text.{◌==◌}
use sta_generation_service.Prelude.{
  String, Bool, true, false, Option, none, some, if◌then◌else◌, ◌≡◌, refl, sym, ◌∙◌, arith, eq_iff,
  ◌⊎◌, inl, inr, Option-cases,
}
use sta_generation_service.Dict.{Dict, insert, lookup}
use sta_generation_service.Dict.Laws.{lookup-insert}
use sta_generation_service.Text.{strip_prefix, starts_with}

-- urlpatterns: the views, and the patterns of other files under a prefix.
pub data Urls : Type 0 where
  no_urls : Urls
  view : (paths : List String) → (name : String) → (others : Urls) → Urls
  include : (prefix : String) → (included : Urls) → (others : Urls) → Urls

is_one_of : String → List String → Bool
is_one_of path [] = false
is_one_of path (p ∷ paths) = if p == path then true else is_one_of path paths

abbrev or_else : Option String → Option String → Option String
or_else none later = later
or_else (some name) later = some name

or_else-none : (o : Option String) → or_else o none ≡ o
or_else-none none = refl
or_else-none (some name) = refl

-- The framework's search, as its documentation tells it: the view of the first pattern that fits; none
-- is a 404.
unfoldable pub resolve : Urls → String → Option String
unfolding is_one_of strip_prefix
resolve no_urls path = none
resolve (view paths name others) path =
    let later = resolve others path in if is_one_of path paths then some name else later
resolve (include prefix included others) path =
    let later = resolve others path in
    elim (strip_prefix prefix path) [
      | none ↦ later
      | some rest ↦ or_else (resolve included rest) later
    ]

-- swagger.urls
abbrev pub swagger_urls : Urls
swagger_urls =
    view ("swagger.json" ∷ "swagger.yaml" ∷ []) "schema-json"
      (view ("swagger/" ∷ []) "schema-swagger-ui" (view ("redoc/" ∷ []) "schema-redoc" no_urls))

-- common.urls, with the patterns of the library watchman
abbrev pub common_urls : Urls → Urls
common_urls watchman = include "_health/app/" watchman no_urls

-- main.urls
abbrev pub main_urls : Urls → Urls
main_urls watchman = include "api/" swagger_urls (include "" (common_urls watchman) no_urls)

-- The only patterns outside of "api/" are those of the health checks.
resolve-common :
    (watchman : Urls) (path : String) {name : String}
    → resolve (common_urls watchman) path ≡ some name
    → starts_with "_health/app/" path ≡ true
unfolding resolve starts_with
resolve-common watchman path {name} h = elim (Option-cases (strip_prefix "_health/app/" path)) [
  | inl outside ↦ let bad : none ≡ some name = rw (resolve, outside) at h in absurd (cc)
  | inr (rest, inside) ↦ rw (starts_with, inside) refl
]

-- Every path that has a view begins with "api/" or with "_health/app/", whatever the patterns of the
-- health checks are.
resolve-main :
    (watchman : Urls) (path : String) {name : String}
    → resolve (main_urls watchman) path ≡ some name
    → (starts_with "api/" path ≡ true) ⊎ (starts_with "_health/app/" path ≡ true)
unfolding resolve starts_with strip_prefix
resolve-main watchman path {name} h = elim (Option-cases (strip_prefix "api/" path)) [
  | inl outside ↦
      inr (resolve-common watchman path (sym (or_else-none _) ∙ rw (resolve, outside) at h))
  | inr (rest, inside) ↦ inl (rw (starts_with, inside) refl)
]

-- What python has on its path when manage.py starts.
pub record Installed : Type 0 where
  pub management : Bool
  pub django : Bool

-- What manage.py comes to: the command runs in an environment, or an import has failed, with the
-- message of the interpreter or with that of manage.py.
pub data Start : Type 0 where
  executes : (environ : Dict String) → Start
  import_error : (explained : Bool) → Start

-- os.environ.setdefault
setdefault : String → String → Dict String → Dict String
unfolding lookup insert
setdefault key value d = elim (lookup key d) [ none ↦ insert key value d | some given ↦ d ]

unfoldable pub manage : Installed → Dict String → Start
unfolding setdefault
manage installed environ =
    if installed.management
    then executes (setdefault "DJANGO_SETTINGS_MODULE" "main.settings" environ)
    else if installed.django
    then import_error false
    else import_error true

abbrev settings_or : Option String → String
settings_or none = "main.settings"
settings_or (some given) = given

-- A command runs with the settings that the environment names, and with main.settings where it names
-- none; other variables are as they were.
manage_lem :
    (installed : Installed) (environ : Dict String) (other : String)
    → installed.management ≡ true
    → (after : Dict String) × (manage installed environ ≡ executes after)
      × (lookup other after ≡ (
          if "DJANGO_SETTINGS_MODULE" == other
          then some (settings_or (lookup "DJANGO_SETTINGS_MODULE" environ))
          else lookup other environ))
unfolding manage setdefault
manage_lem installed environ other found =
    elim (Option-cases (lookup "DJANGO_SETTINGS_MODULE" environ)) [
      | inl unset ↦ (
        insert "DJANGO_SETTINGS_MODULE" "main.settings" environ,
        rw (manage, found, setdefault, unset) refl,
        rw unset (lookup-insert "DJANGO_SETTINGS_MODULE" other "main.settings" environ),
      )
      | inr (given, set_) ↦
          (environ, rw (manage, found, setdefault, set_) refl, rw set_ (same given set_))
    ]
  where
    same :
        (given : String)
        → lookup "DJANGO_SETTINGS_MODULE" environ ≡ some given
        → lookup other environ
          ≡ (if "DJANGO_SETTINGS_MODULE" == other then some given else lookup other environ)
    same given set_ = ground (arith, eq_iff "DJANGO_SETTINGS_MODULE" other)
