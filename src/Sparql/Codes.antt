-- ===== src/Sparql/Codes.antt =====
-- The markers `$CODE_n$` that tell for which cached properties a query is written, and the
-- comparison of such a code with a pilot's cached properties on the bits that matter.
-- sta/src/sparql/base_query_handler.py: `_extract_and_remove_codes`, and loops of `get_response`
pub mod Markers
pub mod Choice
use Prim.Native.Nat.{bit_and}
use Prim.Native.String.{[], ◌∷◌}
use mathlib.Core.List.{List, [], ◌∷◌, ◌++◌, map}
use sta_generation_service.Prelude.{
  ℕ, zero, suc, ◌+◌, ◌/◌, ◌^◌, String, Bool, true, false, Option, none, some, ◌==◌, if◌then◌else◌,
  ◌≡◌, refl,
}
use sta_generation_service.Errors.{Result, ok, err, value_error, type_error, or_raise, ◌>>=◌}
use sta_generation_service.Text.{size, strip_prefix, starts_with, split_on, strip}
use sta_generation_service.Text.Number.{Run, read_digits, parse_nat}
use sta_generation_service.Text.Match.{Matcher, find_all, remove_all}

-- What follows `$CODE_`: digits, and a dollar.
close_code : Run → Option (ℕ × ℕ)
unfolding starts_with
close_code r =
    if r.count == 0
    then none
    else if starts_with "$" r.rest
    then some (r.value, r.count + 7)
    else none

-- The pattern \$CODE_(\d+)\$ with int() of its group.
unfoldable pub match_code : Matcher ℕ
unfolding close_code strip_prefix read_digits
match_code s = elim (strip_prefix "$CODE_" s) [
  | none ↦ none
  | some rest ↦ close_code (read_digits 0 0 rest)
]

-- A query with the codes of its markers, and the query without them.
unfoldable pub codes_of : String → List ℕ
unfolding match_code find_all
codes_of query = find_all match_code zero query

unfoldable pub without_codes : String → String
unfolding match_code remove_all
without_codes query = remove_all match_code zero query

-- The loop over the matches of one query: each round takes out all the markers that it finds.
remove_rounds : List ℕ → String → String
remove_rounds [] query = query
remove_rounds (code ∷ codes) query = remove_rounds codes (without_codes query)

-- self.integer_codes and self.where_queries after `_extract_and_remove_codes`.
unfoldable pub extract_and_remove_codes : List String → List ℕ × List String
unfolding codes_of without_codes remove_rounds
extract_and_remove_codes [] = ([], [])
extract_and_remove_codes (query ∷ queries) =
    let (codes, cleaned) = extract_and_remove_codes queries in
    (codes_of query ++ codes, remove_rounds (codes_of query) query ∷ cleaned)

-- [int(x) for x in bits_text.split(",")]
parse_all : List String → Result (List ℕ)
unfolding parse_nat strip
parse_all [] = ok []
parse_all (x ∷ xs) = do
  n ← or_raise value_error (parse_nat (strip x))
  rest ← parse_all xs
  ok (n ∷ rest)

unfoldable pub important_bits : Option String → Result (Option (List ℕ))
unfolding parse_all split_on
important_bits none = ok none
important_bits (some bits_text) = do bits ← parse_all (split_on b',' bits_text); ok (some bits)

-- (code & mask) >> pos for mask = 1 << pos
unfoldable pub bit_at : ℕ → ℕ → ℕ
bit_at code pos = bit_and code (2 ^ pos) / 2 ^ pos

-- The inner loop: `bits_same`.
unfoldable pub bits_same : List ℕ → ℕ → ℕ → Bool
unfolding bit_at
bits_same [] code cached = true
bits_same (pos ∷ bits) code cached =
    let rest = bits_same bits code cached in
    if bit_at code pos == bit_at cached pos then rest else false

-- The first code whose important bits are those of the cached properties. With codes and no
-- bits text the loop over `None` raises.
unfoldable pub choose_code : Option (List ℕ) → ℕ → List ℕ → Result (Option ℕ)
unfolding bits_same
choose_code bits cached [] = ok none
choose_code none cached (code ∷ codes) = err type_error
choose_code (some bits) cached (code ∷ codes) =
    let rest = choose_code (some bits) cached codes in
    if bits_same bits code cached then ok (some code) else rest

-- self.integer_codes.index(code)
unfoldable pub index_of : ℕ → List ℕ → Result ℕ
index_of code [] = err value_error
index_of code (c ∷ cs) =
    let later = index_of code cs >>= (λ i. ok (suc i)) in if c == code then ok 0 else later

test_extract :
    extract_and_remove_codes ("a $LIMIT_OFFSET$ $CODE_100$b" ∷ "c" ∷ "$CODE_4$" ∷ [])
    ≡ (100 ∷ 4 ∷ [], "a $LIMIT_OFFSET$ b" ∷ "c" ∷ "" ∷ [])
unfolding extract_and_remove_codes
test_extract = refl

test_choose : choose_code (some (2 ∷ 3 ∷ [])) 0b0100 (0b1000 ∷ 0b10101 ∷ 0b101 ∷ []) ≡ ok (some 21)
unfolding choose_code
test_choose = refl
