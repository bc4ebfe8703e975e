-- ===== src/Tests/Codes.antt =====
-- Codes of queries, and of a pilot's cached properties.
use mathlib.Core.List.{[], ◌∷◌}
use sta_generation_service.Prelude.{ℕ, ◌<◌, true, false, not, ◌≡◌, ◌↔◌, refl, map}
use sta_generation_service.Errors.{ok}
use sta_generation_service.Text.{◌<>◌, contains}
use sta_generation_service.Sparql.Codes.{
  extract_and_remove_codes, bits_same, choose_code, index_of, match_code,
}
use sta_generation_service.Sparql.Codes.Choice.{Agree, IsFirst, bits_same_iff, choose_code-IsFirst}
use sta_generation_service.Sparql.Codes.Markers.{Marked, written, extract-written}
use sta_generation_service.CachedProperties.{AskStore, get_integer_code}
use sta_generation_service.CachedProperties.Bits.{
  Answers, LowBits, LowDigits, bit_of, digit, get_integer_code-digits,
}
use sta_generation_service.Tests.{farm}

bits_same_iff_example : (bits_same (0 ∷ 2 ∷ []) 5 7 ≡ true) ↔ Agree (0 ∷ 2 ∷ []) 5 7
bits_same_iff_example = bits_same_iff (0 ∷ 2 ∷ []) 5 7

choose_code-IsFirst_example :
    (i : ℕ) × (index_of 21 (8 ∷ 21 ∷ 5 ∷ []) ≡ ok i) × IsFirst (2 ∷ 3 ∷ []) 4 (8 ∷ 21 ∷ 5 ∷ []) 21 i
unfolding choose_code
choose_code-IsFirst_example = choose_code-IsFirst (2 ∷ 3 ∷ []) 4 (8 ∷ 21 ∷ 5 ∷ []) 21 refl

abbrev marked_query : Marked
marked_query = record { before = "W{ "; code = 100; after = "}" }

extract-written_example : extract_and_remove_codes (map written (marked_query ∷ [])) ≡ (
  map (λ (q : Marked). q.code) (marked_query ∷ []),
  map (λ (q : Marked). q.before <> q.after) (marked_query ∷ []),
)
unfolding match_code
extract-written_example =
    extract-written (marked_query ∷ []) (((refl, (refl, (refl, tt))), (refl, tt)), tt)

-- Every question but the one about WGS84 is answered with yes.
abbrev no_wgs : AskStore
no_wgs endpoint query = ok (not (contains "wgs84" query))

test_code : get_integer_code no_wgs farm ≡ ok 0b1011111
unfolding get_integer_code contains
test_code = refl

get_integer_code-digits_example :
    (a : Answers no_wgs farm 95) × ((digit 95 4 ≡ bit_of a.normal)
      × (digit 95 5 ≡ bit_of a.wgs)
      × (digit 95 6 ≡ bit_of a.feature)
      × (95 < 128))
    × (a.collection ≡ false → LowDigits 95 0 0 0 0)
    × (a.collection ≡ true
        → (l : LowBits no_wgs farm a.low) × LowDigits 95
            (bit_of l.time)
            (bit_of l.result_time)
            (bit_of l.sensor)
            (bit_of l.property))
unfolding get_integer_code contains
get_integer_code-digits_example = get_integer_code-digits no_wgs farm 95 refl
