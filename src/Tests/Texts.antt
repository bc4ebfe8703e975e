-- ===== src/Tests/Texts.antt =====
-- Filters, and the graphs of a pilot after some requests.
use Prim.Native.String.{[], ◌∷◌}
use mathlib.Core.List.{List, [], ◌∷◌, ◌++◌}
use sta_generation_service.Prelude.{none, some, ◌≡◌, refl}
use sta_generation_service.Errors.{err, http}
use sta_generation_service.Text.{◌<>◌}
use sta_generation_service.Models.{Pilot, datastreams, sensors}
use sta_generation_service.Sparql.Filters.{add_filter_line_to_query, get_filter_line, quoted}
use sta_generation_service.Sparql.Filters.Braces.{add_filter_line-braces}
use sta_generation_service.Sparql.Filters.Spatial.{geo_call, rejected, get_filter_line-geo}
use sta_generation_service.Sparql.Handler.{QueryFiles, single, unit_graphs, make_handler}
use sta_generation_service.Sparql.Handler.Aliasing.{
  Call, after_calls, copies, datastreams_calls, graphs-after_calls,
}
use sta_generation_service.Tests.{farm, first_page}

add_filter_line-braces_example :
    add_filter_line_to_query
      ("WHERE { ?a ?b " <> ("}" ∷ "\n"))
      ("WHERE { ?c " <> ("}" ∷ ""))
      "FILTER(?a = 'b')"
    ≡ (
      "WHERE { ?a ?b " <> ("FILTER(?a = 'b')" <> "\n}"),
      "WHERE { ?c " <> ("FILTER(?a = 'b')" <> "\n}"),
    )
add_filter_line-braces_example =
    add_filter_line-braces "WHERE { ?a ?b " "\n" "WHERE { ?c " "" "FILTER(?a = 'b')" (refl, tt) tt

get_filter_line-geo_example :
    get_filter_line (geo_call "within" "POINT(1 2)')") "WHERE { wgs84 }"
    ≡ err (http 400 (some (rejected "within")))
unfolding quoted
get_filter_line-geo_example =
    get_filter_line-geo "within" "POINT(1 2)')" "POINT(1 2)'" "WHERE { wgs84 }"
      (refl, (refl, (refl, (refl, (refl, (refl, tt)))))) (λ same. cc) refl

abbrev files : QueryFiles
files = record { count = "c" ∷ []; where_ = "w" ∷ []; bits = none }

abbrev streams_twice : List Call
streams_twice =
    record { resource = datastreams; select = single "s"; files = files; request = first_page }
    ∷ record { resource = sensors; select = single "s"; files = files; request = first_page }
    ∷ record { resource = datastreams; select = single "s"; files = files; request = first_page }
    ∷ []

abbrev farm_after : Pilot
farm_after = record farm {
  graphs =
      "http://graph/1" ∷ "http://qudt.org/2.1/vocab/unit"
      ∷ "http://www.ontology-of-units-of-measure.org/resource/om-2"
      ∷ "http://qudt.org/2.1/vocab/unit"
      ∷ "http://www.ontology-of-units-of-measure.org/resource/om-2" ∷ [];
}

graphs-after_calls_example :
    farm_after.graphs ≡ farm.graphs ++ copies (datastreams_calls streams_twice) unit_graphs
unfolding after_calls make_handler
graphs-after_calls_example = graphs-after_calls streams_twice farm {p = farm_after} refl
