-- ===== src/Text/Match.antt =====
-- `re.findall` and `re.sub` for a pattern that is given as a matcher: what it captures at the head
-- of a text, and how many characters it takes there. No pattern of the service takes none.
use Prim.Native.String.{[], ◌∷◌}
use mathlib.Core.List.{List, [], ◌∷◌}
use text.Mathlib.TextLemmas.{nil-append, cons-append}
use sta_generation_service.Prelude.{
  ℕ, zero, suc, Char, ◌+◌, ◌-◌, String, Option, none, some, ◌≡◌, ap, arith,
}
use sta_generation_service.Text.{◌<>◌, size}

abbrev pub Matcher : Type 0 → Type 0
Matcher A = String → Option (A × ℕ)

size_pred : (s : String) → size s + 1 - 1 ≡ size s
size_pred s = omega arith

module _ {A : Type 0} (m : Matcher A) where
  -- The captures of all matches from left to right, after `skip` characters.
  unfoldable pub find_all : ℕ → String → List A
  find_all skip [] = []
  find_all (suc k) (c ∷ s) = find_all k s
  find_all zero (c ∷ s) = elim (m (c ∷ s)) [
    | none ↦ find_all zero s
    | some (a, n) ↦ a ∷ find_all (n - 1) s
  ]

  -- The text with every match taken out.
  unfoldable pub remove_all : ℕ → String → String
  remove_all skip [] = []
  remove_all (suc k) (c ∷ s) = remove_all k s
  remove_all zero (c ∷ s) = elim (m (c ∷ s)) [
    | none ↦ c ∷ remove_all zero s
    | some (a, n) ↦ remove_all (n - 1) s
  ]

  -- No match begins within `s`, where `rest` follows.
  abbrev pub Unmatched : String → String → Type 0
  Unmatched [] rest = Unit
  Unmatched (c ∷ s) rest = (m (c ∷ (s <> rest)) ≡ none) × Unmatched s rest

  pub find_all-Unmatched :
      (s rest : String) → Unmatched s rest → find_all zero (s <> rest) ≡ find_all zero rest
  unfolding find_all
  find_all-Unmatched [] rest h = rw nil-append
  find_all-Unmatched (c ∷ s) rest h =
      rw (cons-append, h.0, find_all) (find_all-Unmatched s rest h.1)

  pub remove_all-Unmatched :
      (s rest : String) → Unmatched s rest → remove_all zero (s <> rest) ≡ s <> remove_all zero rest
  unfolding remove_all
  remove_all-Unmatched [] rest h = rw (nil-append, nil-append)
  remove_all-Unmatched (c ∷ s) rest h =
      rw (cons-append, cons-append, h.0, remove_all)
        (ap (λ t. c ∷ t) (remove_all-Unmatched s rest h.1))

  find_all-skip : (s rest : String) → find_all (size s) (s <> rest) ≡ find_all zero rest
  unfolding find_all size
  find_all-skip [] rest = rw nil-append
  find_all-skip (c ∷ s) rest = rw cons-append (find_all-skip s rest)

  remove_all-skip : (s rest : String) → remove_all (size s) (s <> rest) ≡ remove_all zero rest
  unfolding remove_all size
  remove_all-skip [] rest = rw nil-append
  remove_all-skip (c ∷ s) rest = rw cons-append (remove_all-skip s rest)

  -- A match at the head is captured, or taken out, and the search goes on behind it.
  module _ (a : A) (c : Char) (s rest : String)
      (found : m (c ∷ (s <> rest)) ≡ some (a, size s + 1)) where
    pub find_all-matched : find_all zero (c ∷ (s <> rest)) ≡ a ∷ find_all zero rest
    unfolding find_all
    find_all-matched = rw (found, find_all, size_pred s) (ap (λ l. a ∷ l) (find_all-skip s rest))

    pub remove_all-matched : remove_all zero (c ∷ (s <> rest)) ≡ remove_all zero rest
    unfolding remove_all
    remove_all-matched = rw (found, remove_all, size_pred s) (remove_all-skip s rest)
