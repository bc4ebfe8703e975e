-- ===== src/Sparql/Filters.antt =====
-- `$filter` and the filter line that it adds to a query: sta/src/sparql/base_query_handler.py, from
-- `_add_user_filters_to_query` to `_add_filter_line_to_query`.
pub mod Braces
pub mod Spatial
use Prim.Native.String.{[], ◌∷◌}
use mathlib.Core.List.{List, [], ◌∷◌}
use text.Mathlib.Text.{◌==◌ as str_eq}
use sta_generation_service.Prelude.{
  ℕ, zero, suc, ◌+◌, ◌-◌, String, Bool, true, false, not, ◌&&◌, ◌||◌, Option, none, some, leb, ◌==◌,
  is_some, if◌then◌else◌, Char, code, ◌≡◌, refl,
}
use sta_generation_service.Errors.{Error, Result, ok, err, http, index_error, item, or_raise, ◌>>=◌}
use sta_generation_service.Text.{
  ◌<>◌, size, strip_prefix, starts_with, starts_with_any, contains, replace, drop_chars, drop_last,
  before_last, words, capitalize,
}
use sta_generation_service.Text.Match.{Matcher}
use sta_generation_service.Models.{spatial_functions_names}

abbrev pub is_word : ℕ → Bool
is_word c =
    (leb b'a' c && leb c b'z')
    || (leb b'A' c && leb c b'Z')
    || (leb b'0' c && leb c b'9')
    || c == b'_'

-- The longest run of word characters, and what follows it.
word_run : String → String × String
word_run [] = ([], [])
word_run (c ∷ s) =
    let (w, rest) = word_run s in if is_word (code c) then (c ∷ w, rest) else ([], c ∷ s)

-- .+?' before \) : the shortest text of at least one character, none a line break, that `')`
-- follows; with the quote.
unfoldable pub quoted : String → Option String
unfolding starts_with
quoted [] = none
quoted (c ∷ s) =
    let more = quoted s in
    if code c == 10
    then none
    else if starts_with "')" s
    then some (c ∷ "'")
    else elim more [ none ↦ none | some t ↦ some (c ∷ t) ]

-- geo\.\w+ or st_\w+ at the head: the name, and what follows it.
named : String → String → Option (String × String)
unfolding word_run strip_prefix
named prefix s = elim (strip_prefix prefix s) [
  | none ↦ none
  | some rest ↦
      let (w, after) = word_run rest in if str_eq w "" then none else some (prefix <> w, after)
]

function_name : String → Option (String × String)
unfolding named
function_name s = elim (named "geo." s) [ some found ↦ some found | none ↦ named "st_" s ]

abbrev location_head : String
location_head = "location, geography'"

-- A call of a spatial function: group 1, group 2 and the length of the match.
located : String × String → Option ((String × String) × ℕ)
unfolding quoted size strip_prefix
located (name, after) = elim (strip_prefix "(location, geography'" after) [
  | none ↦ none
  | some rest ↦ elim (quoted rest) [
    | none ↦ none
    | some t ↦
        let content = location_head <> t in some ((name, content), size name + size content + 2)
  ]
]

-- (geo\.\w+|st_\w+)\((location, geography'.+?')\)
unfoldable pub match_spatial : Matcher (String × String)
unfolding function_name located
match_spatial s = elim (function_name s) [ none ↦ none | some found ↦ located found ]

abbrev mem_text : String → List String → Bool
mem_text s [] = false
mem_text s (t ∷ ts) = str_eq t s || mem_text s ts

-- `_transform_location_to_sparql`
transform_location_to_sparql : String → String → String
unfolding replace contains
transform_location_to_sparql function_content where_ =
    let geometry = replace location_head "" function_content in
    if contains "wgs84" where_
    then "bif:st_geomFromText(?point_text), '" <> (geometry <> "^^geo:wktLiteral")
    else "?wkt, '" <> (geometry <> "^^geo:wktLiteral")

-- `_replace_filter_option_with_sparql`
unfoldable pub replace_filter_option_with_sparql : String × String → String → Result String
unfolding drop_chars capitalize replace transform_location_to_sparql
replace_filter_option_with_sparql (group1, group2) where_ =
    let name = drop_chars 3 group1 in
    if not (mem_text name spatial_functions_names)
    then err (http 400 (some ("Spatial relationship function: " <> (name <> " doesn't exist"))))
    else ok (
        "geo:sf"
        <> (capitalize (replace "_" "" (drop_chars 3 (replace "." "" group1)))
            <> ("(" <> (transform_location_to_sparql group2 where_ <> ")"))))

-- pattern.sub, whose replacement may raise; `skip` characters of a match are still to be passed.
unfoldable pub sub_spatial : String → ℕ → String → Result String
unfolding match_spatial replace_filter_option_with_sparql
sub_spatial where_ skip [] = ok []
sub_spatial where_ (suc k) (c ∷ s) = sub_spatial where_ k s
sub_spatial where_ zero (c ∷ s) = elim (match_spatial (c ∷ s)) [
  | none ↦ sub_spatial where_ zero s >>= λ t. ok (c ∷ t)
  | some (groups, n) ↦ replace_filter_option_with_sparql groups where_ >>= λ r.
      sub_spatial where_ (n - 1) s >>= λ t. ok (r <> t)
]

-- `_get_filter_line`
unfoldable pub get_filter_line : String → String → Result String
unfolding sub_spatial replace
get_filter_line filter_option where_ = sub_spatial where_ zero filter_option >>= λ t.
    ok (replace "not" "!" (replace "or" "||" (replace "and" "&&" ("FILTER(" <> t))) <> ")")

-- text[:text.rfind("}")], which drops the last character where there is no brace
unfoldable pub clip : String → String
unfolding before_last drop_last
clip text = elim (before_last b'}' text) [ some p ↦ p | none ↦ drop_last text ]

-- `_add_filter_line_to_query`
unfoldable pub add_filter_line_to_query : String → String → String → String × String
unfolding clip
add_filter_line_to_query count where_ filter_line =
    (clip count <> (filter_line <> "\n}"), clip where_ <> (filter_line <> "\n}"))

-- The tests on the words of a filter that calls no function.
simple_filter : List String → String → String → Result (String × String)
unfolding add_filter_line_to_query
simple_filter parts count where_ = item parts 0 >>= λ filter_property.
    item parts 1 >>= λ filter_operator. item parts 2 >>= λ filter_value.
    if str_eq filter_operator "eq"
    then ok (
        add_filter_line_to_query count where_
          ("FILTER(?" <> (filter_property <> (" = '" <> (filter_value <> "')")))))
    else ok (count, where_)

-- `_add_user_filters_to_query`
unfoldable pub add_user_filters_to_query : String → String → String → Result (String × String)
unfolding starts_with_any get_filter_line add_filter_line_to_query simple_filter words
add_user_filters_to_query filter_option count where_ =
    if starts_with_any ("(" ∷ "st" ∷ "geo" ∷ "not" ∷ []) filter_option
    then (get_filter_line filter_option where_ >>= λ line.
        ok (add_filter_line_to_query count where_ line))
    else simple_filter (words filter_option) count where_

test_spatial :
    get_filter_line "st_within(location, geography'POINT(1 2)') and x" "{ wgs84 }"
    ≡ ok "FILTER(geo:sfWithin(bif:st_geomFromText(?point_text), 'POINT(1 2)'^^geo:wktLiteral) && x)"
unfolding get_filter_line
test_spatial = refl

test_simple :
    add_user_filters_to_query "name eq a" "{ c }" "{ w } $CODE_1$"
    ≡ ok ("{ c FILTER(?name = 'a')\n}", "{ w FILTER(?name = 'a')\n}")
unfolding add_user_filters_to_query
test_simple = refl
