-- ===== src/Sparql/Transform.antt =====
-- `transform_binding` of the classes of sta/src/sparql/query_handlers.py, with
-- `make_id_and_self_link` of the base class and `get_label` of sta/src/utils.py.
pub mod Links
use Prim.Native.String.{[], ◌∷◌}
use mathlib.Core.List.{List, [], ◌∷◌}
use text.Mathlib.Text.{◌==◌}
use sta_generation_service.Prelude.{
  ℕ, String, Bool, true, false, ◌||◌, ◌&&◌, Option, none, some, if◌then◌else◌,
}
use sta_generation_service.Errors.{
  Error, Result, ok, err, key_error, type_error, value_error, or_raise, ◌>>=◌,
}
use sta_generation_service.Dict.{Dict, lookup, insert, erase}
use sta_generation_service.Text.{◌<>◌, contains, after_last, split_on, drop_chars}
use sta_generation_service.Models.{
  Resource, observations, datastreams, features_of_interest, historical_locations, locations,
  observed_properties, sensors, things,
}
use sta_generation_service.Sparql.Terms.{
  Value, str, object, Term, Binding, Leaf, Cell, value, text_of, term, null, point, nested, Entity,
  Float,
}

-- `get_label`: what stands after the last "#", or else after the last "/".
unfoldable pub get_label : String → String
unfolding after_last
get_label url = elim (after_last b'#' url) [
  | some label ↦ label
  | none ↦ elim (after_last b'/' url) [ some label ↦ label | none ↦ url ]
]

-- get_label(value.toPython()): `"#" in url` raises unless the value is a text
label_of : Value → Result String
unfolding get_label
label_of (str s) = ok (get_label s)
label_of (object n) = err type_error

-- data_dict[new] = data_dict.pop(old)
unfoldable pub rename : String → String → Entity → Result Entity
unfolding lookup erase insert
rename old new d = or_raise key_error (lookup old d) >>= λ c. ok (insert new c (erase old d))

unfoldable pub rename_all : List (String × String) → Entity → Result Entity
unfolding rename
rename_all [] d = ok d
rename_all ((old, new) ∷ names) d = rename old new d >>= rename_all names

-- `make_id_and_self_link`, and the links of each class after it
abbrev pub self_links : List (String × String)
self_links = ("id", "@iot.id") ∷ ("self_link", "@iot.selfLink") ∷ []

abbrev pub navigation_links : Resource → List (String × String)
navigation_links observations =
    ("datastream_link", "Datastream@iot.navigationLink")
    ∷ ("feature_link", "FeatureOfInterest@iot.navigationLink")
    ∷ []
navigation_links datastreams =
    ("observations_link", "Observations@iot.navigationLink")
    ∷ ("observed_property_link", "ObservedProperty@iot.navigationLink")
    ∷ ("sensor_link", "Sensor@iot.navigationLink")
    ∷ ("thing_link", "Thing@iot.navigationLink")
    ∷ []
navigation_links locations =
    ("things_link", "Things@iot.navigationLink")
    ∷ ("historical_locations_link", "HistoricalLocations@iot.navigationLink")
    ∷ []
navigation_links sensors = ("datastreams_link", "Datastreams@iot.navigationLink") ∷ []
navigation_links features_of_interest =
    ("observations_link", "Observations@iot.navigationLink") ∷ []
navigation_links things =
    ("datastreams_link", "Datastreams@iot.navigationLink")
    ∷ ("historical_locations_link", "HistoricalLocations@iot.navigationLink")
    ∷ ("locations_link", "Locations@iot.navigationLink")
    ∷ []
navigation_links observed_properties = ("datastreams_link", "Datastreams@iot.navigationLink") ∷ []
navigation_links historical_locations =
    ("locations_link", "Locations@iot.navigationLink")
    ∷ ("thing_link", "Thing@iot.navigationLink")
    ∷ []

-- data_dict[str(key)] = value.toPython()
keep : String → Term → Entity → Result Entity
unfolding insert
keep key t d = ok (insert key (value t.python) d)

-- cell[inner] = leaf; what is no dict raises
set_leaf : String → Leaf → Cell → Result Cell
unfolding insert
set_leaf inner leaf (nested leaves) = ok (nested (insert inner leaf leaves))
set_leaf inner leaf _ = err type_error

-- data_dict[outer][inner] = leaf
put_nested : String → String → Leaf → Entity → Result Entity
unfolding lookup insert set_leaf
put_nested outer inner leaf d = or_raise key_error (lookup outer d) >>= λ c.
    set_leaf inner leaf c >>= λ c'. ok (insert outer c' d)

-- cell["coordinates"][0] = f and cell["coordinates"][1] = f
set_lat : Float → Cell → Result Cell
set_lat f (point lat long) = ok (point f long)
set_lat f _ = err type_error

set_long : Float → Cell → Result Cell
set_long f (point lat long) = ok (point lat f)
set_long f _ = err type_error

put_coordinate : (Float → Cell → Result Cell) → String → Term → Entity → Result Entity
unfolding lookup insert
put_coordinate set outer t d = or_raise value_error t.float >>= λ f.
    or_raise key_error (lookup outer d) >>= λ c. set f c >>= λ c'. ok (insert outer c' d)

-- for key, value in zip(p_values, v_values)
put_pairs : Bool → String → List String → List String → Entity → Result Entity
unfolding contains get_label put_nested
put_pairs skip_types outer (p ∷ ps) (v ∷ vs) d =
    let next = put_nested outer (get_label p) (text_of v) d >>= put_pairs skip_types outer ps vs in
    let passed = put_pairs skip_types outer ps vs d in
    if skip_types && contains "type" p then passed else next
put_pairs skip_types outer _ _ d = ok d

-- binding[Variable(name)].split("|")
split_values : String → Binding → Result (List String)
unfolding lookup split_on
split_values name binding =
    or_raise key_error (lookup name binding) >>= λ t. ok (split_on b'|' t.lexical)

-- One round of `for key, value in binding.items()`.
round : Resource → String → Term → Entity → Result Entity
unfolding keep put_nested put_coordinate set_lat set_long label_of insert drop_chars
round observations key t d = if key == "p_values" || key == "v_values" then ok d else keep key t d
round datastreams key t d =
    if key == "u_symbol" || (key == "u_name" || key == "u_definition")
    then put_nested "unitOfMeasurement" (drop_chars 2 key) (value t.python) d
    else keep key t d
round locations key t d =
    if key == "lat"
    then put_coordinate set_lat "location" t d
    else if key == "long"
    then put_coordinate set_long "location" t d
    else keep key t d
round features_of_interest key t d =
    if key == "lat"
    then put_coordinate set_lat "feature" t d
    else if key == "long"
    then put_coordinate set_long "feature" t d
    else keep key t d
round sensors key t d =
    if key == "name"
    then (label_of t.python >>= λ label. ok (insert key (value (str label)) d))
    else if key == "type"
    then (label_of t.python >>= λ label. put_nested "metadata" "type" (text_of label) d)
    else keep key t d
round things key t d =
    if key == "p_values" || (key == "v_values" || key == "type") then ok d else keep key t d
round _ key t d = keep key t d

unfoldable pub loop : (String → Term → Entity → Result Entity) → Binding → Entity → Result Entity
loop body [] d = ok d
loop body ((key, t) ∷ binding) d = body key t d >>= loop body binding

-- The dict with which the method begins, but for a simple observation.
abbrev pub initial : Resource → Entity
initial observations = ("result", nested []) ∷ []
initial datastreams = ("unitOfMeasurement", nested []) ∷ []
initial locations = ("location", point 0 0) ∷ []
initial sensors = ("metadata", nested []) ∷ []
initial features_of_interest = ("feature", point 0 0) ∷ []
initial things = ("properties", nested []) ∷ []
initial observed_properties = []
initial historical_locations = []

-- bool(binding.get(Variable("result")))
unfoldable pub is_simple_result : Binding → Bool
unfolding lookup
is_simple_result binding = elim (lookup "result" binding) [ none ↦ false | some t ↦ t.truthy ]

-- try: the pairs of p_values and v_values; except KeyError: no result
put_results : Result (List String) → Result (List String) → Entity → Result Entity
unfolding put_pairs insert
put_results (ok ps) (ok vs) d = put_pairs false "result" ps vs d
put_results _ _ d = ok (insert "result" null d)

-- What comes after the loop and before the links.
unfoldable pub finish : Resource → Binding → Entity → Result Entity
unfolding put_results split_values put_pairs put_nested lookup
finish observations binding d =
    put_results (split_values "p_values" binding) (split_values "v_values" binding) d
finish things binding d = split_values "p_values" binding >>= λ ps.
    split_values "v_values" binding >>= λ vs. put_pairs true "properties" ps vs d >>= λ d'.
    or_raise key_error (lookup "type" binding) >>= λ t. put_nested "properties" "type" (term t) d'
finish _ binding d = ok d

-- The dict before its links are renamed.
unfoldable pub collect : Resource → Binding → Result Entity
unfolding loop keep round finish is_simple_result
collect observations binding =
    if is_simple_result binding
    then loop keep binding []
    else loop (round observations) binding (initial observations) >>= finish observations binding
collect resource binding =
    loop (round resource) binding (initial resource) >>= finish resource binding

-- `transform_binding`
unfoldable pub transform_binding : Resource → Binding → Result Entity
unfolding collect rename_all
transform_binding resource binding = collect resource binding >>= λ d.
    rename_all self_links d >>= rename_all (navigation_links resource)
