-- ===== src/Tests.antt =====
-- Sample data, and the theorems applied to it.
mod Answers
mod Texts
mod Pilots
mod Routes
mod Auth
mod Indices
mod Codes
mod Sessions
mod Services
mod Caches
mod Workers
mod Reloads
mod Databases
mod Addresses
mod Caching
mod Folders
use mathlib.Core.List.{List, [], ◌∷◌}
use sta_generation_service.Prelude.{ℕ, String, Bool, true, false, Option, none, some, if◌then◌else◌}
use sta_generation_service.Errors.{Result, ok}
use sta_generation_service.Text.{contains}
use sta_generation_service.Models.{Pilot, PilotData, observed_properties}
use sta_generation_service.Sparql.Terms.{Term, Value, str, Binding, Store}
use sta_generation_service.Sparql.Handler.{Handler, Request, single}

abbrev pub literal : String → Term
literal s = record { lexical = s; python = str s; truthy = true; integer = none; float = none }

abbrev pub number : ℕ → Term
number n = record {
  lexical = "number";
  python = str "number";
  truthy = true;
  integer = some n;
  float = none;
}

abbrev pub row : Binding
row =
    ("id", literal "temperature")
    ∷ ("self_link", literal "self")
    ∷ ("name", literal "Temperature")
    ∷ ("datastreams_link", literal "streams")
    ∷ []

-- Three solutions are counted, and each page shows two.
abbrev pub two_of_three : Store
unfolding contains
two_of_three endpoint query =
    if contains "COUNT" query then ok ((("count", number 3) ∷ []) ∷ []) else ok (row ∷ row ∷ [])

abbrev pub farm : Pilot
farm = record {
  name = "farm";
  description = none;
  custom_endpoint = some "http://store/sparql";
  graphs = "http://graph/1" ∷ [];
  cached_properties = none;
}

abbrev pub first_page : Request
first_page = record {
  url = "http://sta/ObservedProperties";
  top = some 2;
  skip = some 0;
  item_id = none;
  filter_option = none;
}

abbrev pub one_item : Request
one_item = record {
  url = "http://sta/ObservedProperties(temperature)";
  top = none;
  skip = none;
  item_id = some "temperature";
  filter_option = none;
}

abbrev pub asks : Request → Handler
asks r = record {
  resource = observed_properties;
  pilot = farm;
  select = single "SELECT *";
  request = r;
  count_queries = "WHERE { c }" ∷ [];
  where_queries = "WHERE { ?id {id} }" ∷ [];
  integer_codes = [];
  important_bits = none;
}
