-- ===== src/Sparql/Filters/Spatial.antt =====
-- Which spatial functions a filter may call.
use Prim.Native.String.{[], ◌∷◌}
use mathlib.Core.List.{List, [], ◌∷◌}
use text.Mathlib.TextLemmas.{nil-append, cons-append}
use sta_generation_service.Prelude.{
  ℕ, ◌+◌, String, Char, code, true, false, some, ◌≡◌, ◌≢◌, refl, ap, arith, All, eq_iff,
}
use sta_generation_service.Errors.{err, http}
use sta_generation_service.Text.{◌<>◌, drop_chars, size, strip_prefix}
use sta_generation_service.Text.Laws.{strip_prefix-append}
use sta_generation_service.Dict.Laws.{eq_of_ne}
use sta_generation_service.Models.{spatial_functions_names}
use sta_generation_service.Sparql.Filters.{
  is_word, word_run, named, function_name, located, quoted, mem_text, match_spatial,
  replace_filter_option_with_sparql, sub_spatial, get_filter_line,
}

abbrev first_code : String → ℕ
first_code [] = 0
first_code (c ∷ s) = code c

-- A text that begins with another character than each of the list is not in it.
not_mem_of_first :
    (s : String) (names : List String)
    → All (λ t. first_code t ≢ first_code s) names
    → mem_text s names ≡ false
not_mem_of_first s [] h = refl
not_mem_of_first s (t ∷ names) (here, later) =
    ground (arith, eq_iff t s, not_mem_of_first s names later, ap first_code)

dotted : (w : String) → drop_chars 3 ("geo." <> w) ≡ "." ∷ w
unfolding drop_chars
dotted w = rw (cons-append, cons-append, cons-append, cons-append, nil-append)

-- The three characters that are cut off `geo.w` leave the dot, so the name is in no list.
abbrev pub rejected : (w : String) → String
rejected w = "Spatial relationship function: " <> (("." ∷ w) <> " doesn't exist")

replace_filter_option-geo :
    (w content where_ : String)
    → replace_filter_option_with_sparql ("geo." <> w, content) where_
      ≡ err (http 400 (some (rejected w)))
unfolding replace_filter_option_with_sparql
replace_filter_option-geo w content where_ =
    rw (dotted w, not_mem_of_first ("." ∷ w) spatial_functions_names (omega arith))

abbrev pub IsWord : String → Type 0
IsWord [] = Unit {0}
IsWord (c ∷ s) = (is_word (code c) ≡ true) × IsWord s

word_run-IsWord :
    (w : String) (c : Char) (s : String)
    → IsWord w
    → is_word (code c) ≡ false
    → word_run (w <> (c ∷ s)) ≡ (w, c ∷ s)
unfolding word_run
word_run-IsWord [] c s word stop = rw (nil-append, word_run, stop)
word_run-IsWord (d ∷ w) c s word stop =
    rw (cons-append, word_run, word_run-IsWord w c s word.1 stop, word.0)

-- A call of `geo.w`, up to the text that it quotes.
abbrev pub geo_call : String → String → String
geo_call w rest = "g" ∷ "e" ∷ "o" ∷ "." ∷ (w <> ("(" ∷ ("location, geography'" <> rest)))

function_name-geo :
    (w rest : String)
    → IsWord w
    → w ≢ ""
    → function_name (geo_call w rest) ≡ some ("geo." <> w, "(" ∷ ("location, geography'" <> rest))
unfolding function_name named strip_prefix
function_name-geo w rest word filled = rw (
  function_name,
  named,
  word_run-IsWord w "(" ("location, geography'" <> rest) word refl,
  eq_of_ne w "" filled,
)

match_spatial-geo :
    (w rest t : String)
    → IsWord w
    → w ≢ ""
    → quoted rest ≡ some t
    → (n : ℕ) × (match_spatial (geo_call w rest)
        ≡ some (("geo." <> w, "location, geography'" <> t), n))
unfolding match_spatial located strip_prefix
match_spatial-geo w rest t word filled closed = (
  size ("geo." <> w) + size ("location, geography'" <> t) + 2,
  rw (
    match_spatial,
    function_name-geo w rest word filled,
    located,
    strip_prefix-append "location, geography'" rest,
    closed,
  ),
)

-- A filter that begins with a call of `geo.w` on a quoted location is answered with status 400 and
-- the detail that this function does not exist, whatever the word `w` is.
pub get_filter_line-geo :
    (w rest t where_ : String)
    → IsWord w
    → w ≢ ""
    → quoted rest ≡ some t
    → get_filter_line (geo_call w rest) where_ ≡ err (http 400 (some (rejected w)))
unfolding get_filter_line sub_spatial
get_filter_line-geo w rest t where_ word filled closed =
    let (n, matched) = match_spatial-geo w rest t word filled closed in
    rw (
      get_filter_line,
      sub_spatial,
      matched,
      replace_filter_option-geo w ("location, geography'" <> t) where_,
    )
