-- ===== src/Text.antt =====
-- The operations on Python's `str` that the service uses, over the native texts.
-- Words, digits, case and white space are those of ASCII. Every `old` that the service hands to
-- `replace` is a literal with at least one character.
pub mod Match
pub mod Number
pub mod Laws
pub mod Split
pub mod Join
use Prim.Native.String.{[], ◌∷◌}
use mathlib.Core.List.{List, [], ◌∷◌}
use text.Mathlib.Text.{◌==◌ as str_eq}
use sta_generation_service.Prelude.{
  ℕ, zero, suc, ◌-◌, ◌+◌, Char, code, String, Bool, true, false, not, ◌&&◌, ◌||◌, Option, none,
  some, leb, ◌==◌, is_some, if◌then◌else◌, ◌≡◌, refl,
}
pub use Prim.Native.String.{◌++◌ as ◌<>◌}

-- The number of characters.
unfoldable pub size : String → ℕ
size [] = 0
size (c ∷ s) = suc (size s)

-- What stands after the prefix `p`.
unfoldable pub strip_prefix : String → String → Option String
strip_prefix [] s = some s
strip_prefix (c ∷ p) [] = none
strip_prefix (c ∷ p) (d ∷ s) = if code c == code d then strip_prefix p s else none

-- s.startswith(p)
unfoldable pub starts_with : String → String → Bool
unfolding strip_prefix
starts_with p s = is_some (strip_prefix p s)

-- s.startswith((p, ...))
unfoldable pub starts_with_any : List String → String → Bool
unfolding starts_with
starts_with_any [] s = false
starts_with_any (p ∷ ps) s = starts_with p s || starts_with_any ps s

-- p in s
unfoldable pub contains : String → String → Bool
unfolding starts_with
contains p [] = starts_with p []
contains p (c ∷ s) = starts_with p (c ∷ s) || contains p s

-- s.replace(old, new); `skip` counts the characters of a match that are still to be passed over.
unfoldable pub replace_from : String → String → ℕ → String → String
unfolding starts_with size
replace_from old new skip [] = []
replace_from old new (suc k) (c ∷ s) = replace_from old new k s
replace_from old new zero (c ∷ s) =
    let matched : String = new <> replace_from old new (size old - 1) s in
    let kept : String = c ∷ replace_from old new zero s in
    if starts_with old (c ∷ s) then matched else kept

unfoldable pub replace : String → String → String → String
unfolding replace_from
replace old new s = replace_from old new zero s

-- s[n:]
unfoldable pub drop_chars : ℕ → String → String
drop_chars zero s = s
drop_chars (suc n) [] = []
drop_chars (suc n) (c ∷ s) = drop_chars n s

-- s[:-1]
unfoldable pub drop_last : String → String
drop_last [] = []
drop_last (c ∷ []) = []
drop_last (c ∷ d ∷ s) = c ∷ drop_last (d ∷ s)

-- The text before the last character with the code `b`, if there is one.
unfoldable pub before_last : ℕ → String → Option String
before_last b [] = none
before_last b (c ∷ s) = elim (before_last b s) [
  | some p ↦ some (c ∷ p)
  | none ↦ if code c == b then some [] else none
]

-- The text after the last character with the code `b`, if there is one.
unfoldable pub after_last : ℕ → String → Option String
after_last b [] = none
after_last b (c ∷ s) = elim (after_last b s) [
  | some p ↦ some p
  | none ↦ if code c == b then some s else none
]

-- The text before the first character with the code `b`, if there is one, else the whole.
unfoldable pub before_first : ℕ → String → String
before_first b [] = []
before_first b (c ∷ s) = let rest = before_first b s in if code c == b then [] else c ∷ rest

abbrev join_head : Char → List String → List String
join_head c [] = (c ∷ []) ∷ []
join_head c (w ∷ ws) = (c ∷ w) ∷ ws

-- s.split(sep) for a separator of one character
unfoldable pub split_on : ℕ → String → List String
split_on b [] = [] ∷ []
split_on b (c ∷ s) = let rest = split_on b s in if code c == b then [] ∷ rest else join_head c rest

abbrev pub is_space : ℕ → Bool
is_space n = n == 32 || (leb 9 n && leb n 13)

abbrev end_word : String → List String → List String
end_word [] ws = ws
end_word (c ∷ w) ws = (c ∷ w) ∷ ws

-- s.split(): the words between runs of white space; `word` is the one that is being read.
words_from : String → String → List String
words_from word [] = end_word word []
words_from word (c ∷ s) =
    let ended = end_word word (words_from [] s) in
    let longer = words_from (word <> (c ∷ [])) s in if is_space (code c) then ended else longer

unfoldable pub words : String → List String
unfolding words_from
words s = words_from [] s

-- s.lstrip(), s.strip()
unfoldable pub strip_left : String → String
strip_left [] = []
strip_left (c ∷ s) = let rest = strip_left s in if is_space (code c) then rest else c ∷ s

unfoldable pub strip_right : String → String
strip_right [] = []
strip_right (c ∷ s) = elim (strip_right s) [
  | [] ↦ if is_space (code c) then [] else c ∷ []
  | d ∷ t ↦ c ∷ d ∷ t
]

unfoldable pub strip : String → String
unfolding strip_left strip_right
strip s = strip_right (strip_left s)

-- sep.join(parts)
unfoldable pub join : String → List String → String
join sep [] = []
join sep (p ∷ []) = p
join sep (p ∷ q ∷ ps) = p <> sep <> join sep (q ∷ ps)

-- The upper case of an ASCII letter is 32 below.
abbrev upper_table : List (Char × Char)
upper_table =
    ("a", "A")
    ∷ ("b", "B")
    ∷ ("c", "C")
    ∷ ("d", "D")
    ∷ ("e", "E")
    ∷ ("f", "F")
    ∷ ("g", "G")
    ∷ ("h", "H")
    ∷ ("i", "I")
    ∷ ("j", "J")
    ∷ ("k", "K")
    ∷ ("l", "L")
    ∷ ("m", "M")
    ∷ ("n", "N")
    ∷ ("o", "O")
    ∷ ("p", "P")
    ∷ ("q", "Q")
    ∷ ("r", "R")
    ∷ ("s", "S")
    ∷ ("t", "T")
    ∷ ("u", "U")
    ∷ ("v", "V")
    ∷ ("w", "W")
    ∷ ("x", "X")
    ∷ ("y", "Y")
    ∷ ("z", "Z")
    ∷ []

look_up_case : Char → List (Char × Char) → Char
look_up_case c [] = c
look_up_case c ((a, b) ∷ t) = if code c == code a then b else look_up_case c t

look_down_case : Char → List (Char × Char) → Char
look_down_case c [] = c
look_down_case c ((a, b) ∷ t) = if code c == code b then a else look_down_case c t

-- s.lower()
unfoldable pub lower : String → String
unfolding look_down_case
lower [] = []
lower (c ∷ s) = look_down_case c upper_table ∷ lower s

-- s.upper()
unfoldable pub upper : String → String
unfolding look_up_case
upper [] = []
upper (c ∷ s) = look_up_case c upper_table ∷ upper s

-- s.capitalize()
unfoldable pub capitalize : String → String
unfolding lower look_up_case
capitalize [] = []
capitalize (c ∷ s) = look_up_case c upper_table ∷ lower s

test_replace : replace "id" "42" "x(id) id" ≡ "x(42) 42"
unfolding replace
test_replace = refl

test_words : words "  a eq  b " ≡ "a" ∷ "eq" ∷ "b" ∷ []
unfolding words
test_words = refl

test_capitalize : capitalize "withIn" ≡ "Within"
unfolding capitalize
test_capitalize = refl

test_strip : strip " 4 " ≡ "4"
unfolding strip
test_strip = refl

-- s.endswith(p)
unfoldable pub ends_with : String → String → Bool
ends_with p [] = str_eq p []
ends_with p (c ∷ s) = str_eq p (c ∷ s) || ends_with p s

-- s[:n]
unfoldable pub take_chars : ℕ → String → String
take_chars zero s = []
take_chars (suc n) [] = []
take_chars (suc n) (c ∷ s) = c ∷ take_chars n s
