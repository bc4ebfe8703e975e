-- ===== src/Sparql/Codes/Markers.antt =====
-- Markers are read back: a query written for a code yields that code and loses nothing else.
use Prim.Native.String.{[], ◌∷◌}
use mathlib.Core.List.{List, [], ◌∷◌}
use text.Mathlib.TextLemmas.{nil-append, cons-append, append_assoc, append-nil}
use sta_generation_service.Prelude.{
  ℕ, zero, ◌+◌, String, some, ◌≡◌, refl, sym, ap, All, map, ◌∙◌, arith,
}
use sta_generation_service.Text.{◌<>◌, size, strip_prefix}
use sta_generation_service.Text.Number.{show, read_digits-show}
use sta_generation_service.Text.Match.{
  Unmatched, find_all, remove_all, find_all-Unmatched, remove_all-Unmatched, find_all-matched,
  remove_all-matched,
}
use sta_generation_service.Sparql.Codes.{
  close_code, match_code, codes_of, without_codes, remove_rounds, extract_and_remove_codes,
}

-- `$CODE_n$` without its first dollar, and whole.
abbrev marker_tail : ℕ → String
marker_tail n = "C" ∷ "O" ∷ "D" ∷ "E" ∷ "_" ∷ (show n <> ("$" ∷ []))

abbrev pub marker : ℕ → String
marker n = "$" ∷ marker_tail n

size-append : (s t : String) → size (s <> t) ≡ size s + size t
unfolding size
size-append [] t = rw nil-append (omega arith)
size-append (c ∷ s) t = rw cons-append (omega (arith, size-append s t))

match_code-digits :
    (n : ℕ) (post : String)
    → match_code ("$" ∷ "C" ∷ "O" ∷ "D" ∷ "E" ∷ "_" ∷ (show n <> ("$" ∷ post)))
      ≡ some (n, size (show n) + 7)
unfolding match_code close_code strip_prefix
match_code-digits n post =
    let (k, pos, same, run) = read_digits-show n "$" post refl in rw run (ground arith)

dollar-append : (post : String) → "$" <> post ≡ "$" ∷ post
dollar-append post = cons-append "$" [] post ∙ ap (λ t. "$" ∷ t) (nil-append post)

marker-append :
    (n : ℕ) (post : String)
    → marker_tail n <> post ≡ "C" ∷ "O" ∷ "D" ∷ "E" ∷ "_" ∷ (show n <> ("$" ∷ post))
marker-append n post = simp (cons-append, append_assoc, dollar-append)

size-marker : (n : ℕ) → size (marker_tail n) + 1 ≡ size (show n) + 7
unfolding size
size-marker n = omega (arith, size-append (show n) ("$" ∷ []))

match_code-marker :
    (n : ℕ) (post : String)
    → match_code ("$" ∷ (marker_tail n <> post)) ≡ some (n, size (marker_tail n) + 1)
match_code-marker n post = rw (marker-append, size-marker) (match_code-digits n post)

-- A query by its parts: a text, the code of its marker, and a text.
pub record Marked : Type 0 where
  pub before : String
  pub code : ℕ
  pub after : String

abbrev pub written : Marked → String
written q = q.before <> ("$" ∷ (marker_tail q.code <> q.after))

-- The marker is the only one that a search from the left meets.
abbrev pub IsOnly : Marked → Type 0
IsOnly q =
    Unmatched match_code q.before ("$" ∷ (marker_tail q.code <> q.after))
    × Unmatched match_code q.after ""

module _ (q : Marked) (only : IsOnly q) where
  codes_of-after : find_all match_code zero q.after ≡ []
  unfolding find_all
  codes_of-after = rw (← append-nil q.after) (find_all-Unmatched match_code q.after "" only.1)

  pub codes_of-written : codes_of (written q) ≡ q.code ∷ []
  unfolding codes_of
  codes_of-written =
      find_all-Unmatched match_code q.before _ only.0
      ∙ find_all-matched match_code q.code "$" (marker_tail q.code) q.after
          (match_code-marker q.code q.after)
      ∙ ap (λ l. q.code ∷ l) codes_of-after

  without_codes-after : remove_all match_code zero q.after ≡ q.after
  unfolding remove_all
  without_codes-after =
      ap (remove_all match_code zero) (sym (append-nil q.after))
      ∙ remove_all-Unmatched match_code q.after "" only.1
      ∙ append-nil q.after

  pub without_codes-written : without_codes (written q) ≡ q.before <> q.after
  unfolding without_codes
  without_codes-written =
      remove_all-Unmatched match_code q.before _ only.0
      ∙ ap (λ t. q.before <> t)
          (remove_all-matched match_code q.code "$" (marker_tail q.code) q.after
              (match_code-marker q.code q.after)
            ∙ without_codes-after)

-- Where each query holds one marker and no other match, extraction yields one code for each query,
-- in the order of the queries, and each query without its marker and otherwise unchanged.
pub extract-written :
    (queries : List Marked)
    → All IsOnly queries
    → extract_and_remove_codes (map written queries)
      ≡ (map (λ q. q.code) queries, map (λ q. q.before <> q.after) queries)
unfolding extract_and_remove_codes
extract-written [] only = refl
extract-written (q ∷ queries) (here, later) = rw (
  codes_of-written q here,
  remove_rounds,
  without_codes-written q here,
  extract-written queries later,
)
