-- ===== src/Tests/Caching.antt =====
-- Caching the properties of a pilot, and a handler that then picks its query by them.
use mathlib.Core.List.{[], ◌∷◌}
use sta_generation_service.Prelude.{some, ◌≡◌, refl, All}
use sta_generation_service.Models.{Pilot, locations}
use sta_generation_service.CachedProperties.{get_integer_code}
use sta_generation_service.CachedProperties.Bits.{Answers, digit}
use sta_generation_service.Sparql.Codes.{choose_code}
use sta_generation_service.Sparql.Handler.{Handler, QueryFiles, make_handler, single}
use sta_generation_service.Apps.{mounts, generate_pilot_apps}
use sta_generation_service.Apps.Paths.{find_mount}
use sta_generation_service.Pilots.{Service, cache_reloaded, find_pilot, handle}
use sta_generation_service.Pilots.Caching.{wanted, cache-choose_code}
use sta_generation_service.Tests.{farm, first_page}
use sta_generation_service.Tests.Pilots.{
  site, always, cached_farm, one_pilot, one_pilot-IsConsistent,
}
use sta_generation_service.Tests.Routes.{listing, made_routes}

abbrev recached : Pilot
recached = record farm { cached_properties = some 127 }

abbrev after : Service
after = record { table = recached ∷ []; mounted = recached ∷ [] }

-- The second query is written for normal results with WGS84 locations.
abbrev coded_files : QueryFiles
coded_files = record {
  count = [];
  where_ = "WHERE { ?a $CODE_16$ }" ∷ "WHERE { ?b $CODE_48$ }" ∷ [];
  bits = some "4,5";
}

abbrev coded_handler : Handler
coded_handler = record {
  resource = locations;
  pilot = recached;
  select = single "SELECT *";
  request = first_page;
  count_queries = [];
  where_queries = "WHERE { ?a  }" ∷ "WHERE { ?b  }" ∷ [];
  integer_codes = 16 ∷ 48 ∷ [];
  important_bits = some (4 ∷ 5 ∷ []);
}

cache-choose_code_example :
    (p : Pilot) × (find_pilot "farm" (cached_farm ∷ []) ≡ some p)
    × ((a : Answers always p 127) × All (λ pos. digit 48 pos ≡ wanted a pos) (4 ∷ 5 ∷ []))
unfolding handle get_integer_code generate_pilot_apps make_handler choose_code find_mount
cache-choose_code_example =
    cache-choose_code site always "farm" one_pilot after
      (record { status = 200; body = cache_reloaded }) listing
      {mounted = mounts made_routes (recached ∷ [])} recached locations (single "SELECT *")
      coded_files first_page {h = coded_handler} (4 ∷ 5 ∷ []) 127 48 one_pilot-IsConsistent refl
      refl refl refl refl refl refl
