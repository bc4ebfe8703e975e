-- ===== src/Sparql/Namespaces.antt =====
-- `_bind_namespaces` of sta/src/sparql/base_query_handler.py, and that of cached_properties_handler.py:
-- the prefixes of queries, bound one after another in the graph that asks them. What `bind` does with
-- a graph is rdflib's.
use Prim.Native.String.{[], ◌∷◌}
use mathlib.Core.List.{[], ◌∷◌}
use sta_generation_service.Prelude.{String, some, ◌≡◌, refl, All}
use sta_generation_service.Dict.{Dict, lookup, insert}
use sta_generation_service.Dict.Laws.{lookup-insert}

-- Each prefix with its namespace, in the order of the calls.
abbrev pub handler_namespaces : Dict String
handler_namespaces =
    ("sosa", "http://www.w3.org/ns/sosa/")
    ∷ ("qudt", "http://qudt.org/schema/qudt/")
    ∷ ("om2", "http://www.ontology-of-units-of-measure.org/resource/om-2/")
    ∷ ("ogc", "http://www.opengis.net/def/observationType/OGC-OM/2.0/")
    ∷ ("wgs84", "http://www.w3.org/2003/01/geo/wgs84_pos#")
    ∷ ("geo", "http://www.opengis.net/ont/geosparql#")
    ∷ ("dct", "http://purl.org/dc/terms/")
    ∷ []

abbrev pub cached_namespaces : Dict String
cached_namespaces =
    ("sosa", "http://www.w3.org/ns/sosa/")
    ∷ ("qudt", "http://qudt.org/schema/qudt/")
    ∷ ("om2", "http://www.ontology-of-units-of-measure.org/resource/om-2/")
    ∷ ("ogc", "http://www.opengis.net/def/observationType/OGC-OM/2.0/")
    ∷ ("wgs84", "http://www.w3.org/2003/01/geo/wgs84_pos#")
    ∷ ("geo", "http://www.opengis.net/ont/geosparql#")
    ∷ ("dct", "http://purl.org/dc/terms/")
    ∷ []

module _ {G : Type 0} (bind : (prefix namespace : String) → G → G) where
  unfoldable pub bind_namespaces : Dict String → G → G
  bind_namespaces [] graph = graph
  bind_namespaces ((prefix, namespace) ∷ table) graph =
      bind_namespaces table (bind prefix namespace graph)

  -- The questions for the cached properties and the queries of resources are asked with the same
  -- prefixes.
  bind_namespaces-same :
      (graph : G)
      → bind_namespaces cached_namespaces graph ≡ bind_namespaces handler_namespaces graph
  bind_namespaces-same graph = refl

-- A bind that replaces what a prefix stood for leaves each prefix with its namespace, whatever the
-- graph had bound before.
bind_namespaces-All :
    (bound : Dict String)
    → All
        (λ (e : String × String).
          lookup e.0 (bind_namespaces insert handler_namespaces bound) ≡ some e.1)
        handler_namespaces
unfolding bind_namespaces
bind_namespaces-All bound = (
  simp lookup-insert,
  (
    simp lookup-insert,
    (
      simp lookup-insert,
      (simp lookup-insert, (simp lookup-insert, (simp lookup-insert, (simp lookup-insert, tt)))),
    ),
  ),
)
