-- ===== src/Sparql/Terms.antt =====
-- The values that pass between the SPARQL store and the handlers.
use mathlib.Core.List.{List}
use sta_generation_service.Prelude.{ℕ, String, Bool, Option}
use sta_generation_service.Dict.{Dict}
use sta_generation_service.Errors.{Result}

-- A Python value: a text, or an object that the service only passes on, known by a number.
pub data Value : Type 0 where
  str : String → Value
  object : ℕ → Value

-- A float is known by its 64-bit pattern; 0.0 is the pattern 0.
abbrev pub Float : Type 0
Float = ℕ

-- A term of rdflib by what the service asks of it: `str(t)`, `t.toPython()`, `bool(t)`, `int(t)`
-- and `float(t.toPython())`, where the absent number stands for a raised exception.
pub record Term : Type 0 where
  pub lexical : String
  pub python : Value
  pub truthy : Bool
  pub integer : Option ℕ
  pub float : Option Float

-- A solution: its variables in order, each with its term.
abbrev pub Binding : Type 0
Binding = Dict Term

-- What the store does with a query: it answers with the solutions, or raises.
abbrev pub Store : Type 0
Store = (endpoint : String) → (query : String) → Result (List Binding)

-- A value of a nested dict.
pub data Leaf : Type 0 where
  value : Value → Leaf
  text_of : String → Leaf
  term : Term → Leaf

-- A value of the dict that a handler makes from a solution; `point lat long` is the dict
-- {"coordinates": [lat, long], "type": "Point"}.
pub data Cell : Type 0 where
  value : Value → Cell
  null : Cell
  point : (lat long : Float) → Cell
  nested : Dict Leaf → Cell

-- data_dict
abbrev pub Entity : Type 0
Entity = Dict Cell

-- The answer to a request: one entity, or a page of a collection.
pub data Response : Type 0 where
  entity : Entity → Response
  page : (count : ℕ) → (next_link : Option String) → (value : List Entity) → Response
