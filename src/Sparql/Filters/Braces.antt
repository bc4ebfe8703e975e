-- ===== src/Sparql/Filters/Braces.antt =====
-- Where a filter line goes: in place of the last closing brace of a query, and what follows it.
use Prim.Native.String.{[], ◌∷◌}
use text.Mathlib.TextLemmas.{nil-append, cons-append}
use sta_generation_service.Prelude.{String, code, ◌==◌, false, some, none, ◌≡◌, refl}
use sta_generation_service.Text.{◌<>◌, before_last, drop_last}
use sta_generation_service.Sparql.Filters.{clip, add_filter_line_to_query}

-- The text has no closing brace.
abbrev pub NoBrace : String → Type 0
NoBrace [] = Unit {0}
NoBrace (c ∷ s) = ((code c == b'}') ≡ false) × NoBrace s

before_last-none : (s : String) → NoBrace s → before_last b'}' s ≡ none
unfolding before_last
before_last-none [] h = refl
before_last-none (c ∷ s) h = rw (before_last-none s h.1) (rw h.0)

before_last-brace : (s rest : String) → NoBrace rest → before_last b'}' (s <> ("}" ∷ rest)) ≡ some s
unfolding before_last
before_last-brace [] rest h = rw (nil-append, before_last, before_last-none rest h)
before_last-brace (c ∷ s) rest h = rw (cons-append, before_last, before_last-brace s rest h)

clip-brace : (s rest : String) → NoBrace rest → clip (s <> ("}" ∷ rest)) ≡ s
unfolding clip
clip-brace s rest h = rw (clip, before_last-brace s rest h)

-- In a count query and a where query that have a closing brace each, the filter line and a brace
-- on a line of its own take the place of the last brace and of all that follows it.
pub add_filter_line-braces :
    (count count_rest where_ where_rest filter_line : String)
    → NoBrace count_rest
    → NoBrace where_rest
    → add_filter_line_to_query
        (count <> ("}" ∷ count_rest))
        (where_ <> ("}" ∷ where_rest))
        filter_line
      ≡ (count <> (filter_line <> "\n}"), where_ <> (filter_line <> "\n}"))
unfolding add_filter_line_to_query
add_filter_line-braces count count_rest where_ where_rest filter_line h k =
    rw (clip-brace count count_rest h, clip-brace where_ where_rest k)

-- With no closing brace at all a query loses its last character instead.
clip_of_NoBrace : (s : String) → NoBrace s → clip s ≡ drop_last s
unfolding clip
clip_of_NoBrace s h = rw (clip, before_last-none s h)
