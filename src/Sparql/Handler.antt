-- ===== src/Sparql/Handler.antt =====
-- The state of a query handler, and how a handler is made: sta/src/sparql/base_query_handler.py
-- `__init__`, and the one of DatastreamsHandler in sta/src/sparql/query_handlers.py.
pub mod Aliasing
use mathlib.Core.List.{List, [], ◌∷◌, ◌++◌}
use text.Mathlib.Text.{◌==◌}
use sta_generation_service.Prelude.{ℕ, String, Option, none, some, if◌then◌else◌}
use sta_generation_service.Errors.{Result, ok, err, ◌>>=◌}
use sta_generation_service.Models.{Pilot, Resource, datastreams, default_query_endpoint}
use sta_generation_service.Sparql.Codes.{extract_and_remove_codes, important_bits}

-- The select clause: one text, or the two of the observations.
pub data Select : Type 0 where
  single : String → Select
  simple_or_normal : (simple normal : String) → Select

-- The queries that `read_queries_from_files` reads.
pub record QueryFiles : Type 0 where
  pub count : List String
  pub where_ : List String
  pub bits : Option String

-- What a request gives beside the pilot and the queries.
pub record Request : Type 0 where
  pub url : String
  pub top : Option ℕ
  pub skip : Option ℕ
  pub item_id : Option String
  pub filter_option : Option String

-- The attributes of a handler. `self.graphs` is the list object of the pilot, so it is read from
-- there.
pub record Handler : Type 0 where
  pub resource : Resource
  pub pilot : Pilot
  pub select : Select
  pub request : Request
  pub count_queries : List String
  pub where_queries : List String
  pub integer_codes : List ℕ
  pub important_bits : Option (List ℕ)

-- The graphs of the units, which DatastreamsHandler adds in place.
abbrev pub unit_graphs : List String
unit_graphs =
    "http://qudt.org/2.1/vocab/unit" ∷ "http://www.ontology-of-units-of-measure.org/resource/om-2"
    ∷ []

-- `self.graphs += [...]` extends the pilot's own list.
unfoldable pub extend_graphs : Resource → Pilot → Pilot
extend_graphs datastreams pilot = record pilot { graphs = pilot.graphs ++ unit_graphs }
extend_graphs _ pilot = pilot

-- With a filter the count queries are the where queries as read, markers included.
unfoldable pub count_source : Option String → QueryFiles → List String
count_source none files = files.count
count_source (some filter_option) files = files.where_

unfoldable pub make_handler : Resource → Pilot → Select → QueryFiles → Request → Result Handler
unfolding extend_graphs count_source important_bits extract_and_remove_codes
make_handler resource pilot select files request =
    let (codes, cleaned) = extract_and_remove_codes files.where_ in
    important_bits files.bits >>= λ bits. ok (record {
      resource = resource;
      pilot = extend_graphs resource pilot;
      select = select;
      request = request;
      count_queries = count_source request.filter_option files;
      where_queries = cleaned;
      integer_codes = codes;
      important_bits = bits;
    })

-- The SPARQL endpoint: the pilot's own, unless it is missing or empty.
unfoldable pub query_endpoint : Option String → String
query_endpoint none = default_query_endpoint
query_endpoint (some endpoint) = if endpoint == "" then default_query_endpoint else endpoint
