-- ===== src/Text/Number.antt =====
-- Decimal texts of natural numbers: `str(n)`, and `int(s)` without signs and underscores.
pub mod Digits
use Prim.Native.String.{[], ◌∷◌}
use mathlib.Core.List.{[], ◌∷◌}
use text.Mathlib.TextLemmas.{nil-append, cons-append}
use sta_generation_service.Prelude.{
  ℕ, zero, suc, ◌+◌, ◌-◌, ◌*◌, ◌/◌, ◌%◌, ◌<◌, Char, code, String, Bool, true, false, ◌&&◌, Option,
  ==_iff, none, some, leb, ltb, ◌==◌, if◌then◌else◌, ◌≡◌, refl, ap, ◌∙◌, arith,
}
use sta_generation_service.Text.{◌<>◌, size}

unfoldable pub digit : ℕ → Char
digit n =
    if n == 0
    then "0"
    else if n == 1
    then "1"
    else if n == 2
    then "2"
    else if n == 3
    then "3"
    else if n == 4
    then "4"
    else if n == 5
    then "5"
    else if n == 6
    then "6"
    else if n == 7
    then "7"
    else if n == 8
    then "8"
    else "9"

abbrev pub is_digit : ℕ → Bool
is_digit c = leb 48 c && leb c 57

-- The digits of `n` before the text `tail`.
show_from : ℕ → ℕ → String → String
unfolding digit
show_from zero n tail = tail
show_from (suc f) n tail =
    let rest = show_from f (n / 10) (digit (n % 10) ∷ tail) in
    if ltb n 10 then digit n ∷ tail else rest

-- str(n)
unfoldable pub show : ℕ → String
unfolding show_from
show n = show_from (suc n) n []

-- A run of digits at the head of a text: its value, its length and what follows.
pub record Run : Type 0 where
  pub value : ℕ
  pub count : ℕ
  pub rest : String

unfoldable pub read_digits : ℕ → ℕ → String → Run
read_digits v n [] = record { value = v; count = n; rest = [] }
read_digits v n (c ∷ s) =
    let more = read_digits (v * 10 + (code c - 48)) (n + 1) s in
    if is_digit (code c) then more else record { value = v; count = n; rest = c ∷ s }

ends : ℕ → ℕ → String → Option ℕ
ends v n [] = if n == 0 then none else some v
ends v n (c ∷ s) = none

whole : Run → Option ℕ
whole r = ends r.value r.count r.rest

-- int(s) for a text with no white space round it; `none` is a ValueError
unfoldable pub parse_nat : String → Option ℕ
unfolding read_digits ends whole
parse_nat s = whole (read_digits 0 0 s)

-- A test that each value below a limit passes, and what it says of one value.
each_below : (ℕ → Bool) → ℕ → Bool
each_below test zero = true
each_below test (suc limit) = each_below test limit && test limit

passes : (test : ℕ → Bool) (limit n : ℕ) → n < limit → each_below test limit ≡ true → test n ≡ true
unfolding each_below
passes test zero n below all = absurd (omega arith)
passes test (suc limit) n below all = ground (arith, passes test limit n)

digit_table : each_below (λ d. code (digit d) == 48 + d) 10 ≡ true
unfolding each_below digit
digit_table = refl

code-digit : (n : ℕ) → n < 10 → code (digit n) ≡ 48 + n
code-digit n h = (==_iff _ _).0 (passes _ 10 n h digit_table)

-- The number of digits that `show` writes.
width : ℕ → ℕ → ℕ
width zero n = 0
width (suc f) n = let more = width f (n / 10) + 1 in if ltb n 10 then 1 else more

read_digits-digit :
    (v k d : ℕ) (s : String)
    → d < 10
    → read_digits v k (digit d ∷ s) ≡ read_digits (v * 10 + d) (k + 1) s
unfolding read_digits
read_digits-digit v k d s h = ground (arith, code-digit d h)

read_digits-show_from :
    (f n k : ℕ) (tail : String)
    → n < f
    → read_digits 0 k (show_from f n tail) ≡ read_digits n (k + width f n) tail
unfolding show_from width
read_digits-show_from zero n k tail h = elim h [ ]
read_digits-show_from (suc f) n k tail h = ground (
  arith,
  read_digits-digit 0 k n tail,
  read_digits-show_from f (n / 10) k (digit (n % 10) ∷ tail),
  read_digits-digit (n / 10) (k + width f (n / 10)) (n % 10) tail,
)

width_pos : (f n : ℕ) → 0 < width (suc f) n
unfolding width
width_pos f n = ground arith

size-show_from :
    (f n : ℕ) (tail : String) → n < f → size (show_from f n tail) ≡ width f n + size tail
unfolding show_from width size
size-show_from zero n tail h = elim h [ ]
size-show_from (suc f) n tail h = ground (arith, size-show_from f (n / 10) (digit (n % 10) ∷ tail))

show_from-append : (f n : ℕ) (t u : String) → show_from f n t <> u ≡ show_from f n (t <> u)
unfolding show_from
show_from-append zero n t u = refl
show_from-append (suc f) n t u = ground (
  arith,
  cons-append (digit n) t u,
  cons-append (digit (n % 10)) t u,
  show_from-append f (n / 10) (digit (n % 10) ∷ t) u,
)

-- What a number reads as that is printed before a text which begins with no digit.
pub read_digits-show :
    (n : ℕ) (c : Char) (s : String)
    → is_digit (code c) ≡ false
    → (k : ℕ) × (0 < k)
      × (k ≡ size (show n))
      × (read_digits 0 0 (show n <> (c ∷ s)) ≡ record { value = n; count = k; rest = c ∷ s })
unfolding show read_digits size
read_digits-show n c s h = (
  0 + width (suc n) n,
  omega (arith, width_pos n n),
  omega (arith, size-show_from (suc n) n []),
  rw (show_from-append (suc n) n [] (c ∷ s), nil-append (c ∷ s))
      (read_digits-show_from (suc n) n 0 (c ∷ s) (omega arith) ∙ rw (h, read_digits)),
)

-- Reading back a printed number gives the number.
pub parse_nat-show : (n : ℕ) → parse_nat (show n) ≡ some n
unfolding parse_nat show
parse_nat-show n =
    ap whole (read_digits-show_from (suc n) n 0 [] (omega arith)) ∙ ground (arith, width_pos n n)

test_show : show 1050 ≡ "1050"
unfolding show
test_show = refl

test_parse : parse_nat "0420" ≡ some 420
unfolding parse_nat
test_parse = refl
