-- ===== src/Tests/Addresses.antt =====
-- The addresses of the django project.
use mathlib.Core.List.{[], ◌∷◌}
use sta_generation_service.Prelude.{none, some, ◌≡◌, refl}
use sta_generation_service.Urls.{Urls, no_urls, view, resolve, main_urls}

abbrev ping : Urls
ping = view ("ping/" ∷ []) "ping" no_urls

test_swagger : resolve (main_urls ping) "api/swagger.json" ≡ some "schema-json"
unfolding resolve
test_swagger = refl

test_hidden : resolve (main_urls ping) "ping/" ≡ none
unfolding resolve
test_hidden = refl
