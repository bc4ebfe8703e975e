-- ===== src/Text/Number/Digits.antt =====
-- A printed number has digits only.
use Prim.Native.String.{[], ◌∷◌}
use sta_generation_service.Prelude.{ℕ, zero, suc, ◌/◌, ◌%◌, ◌<◌, String, false, ◌≡◌, refl, arith}
use sta_generation_service.Text.Split.{has_code}
use sta_generation_service.Text.Number.{digit, show_from, show, code-digit}

has_code-show_from :
    (f n : ℕ) (tail : String)
    → n < f
    → has_code b':' tail ≡ false
    → has_code b':' (show_from f n tail) ≡ false
unfolding show_from
has_code-show_from zero n tail below h = absurd (omega arith)
has_code-show_from (suc f) n tail below h = ground (
  arith,
  code-digit n,
  code-digit (n % 10),
  has_code-show_from f (n / 10) (digit (n % 10) ∷ tail),
)

pub has_code-show : (n : ℕ) → has_code b':' (show n) ≡ false
unfolding show
has_code-show n = has_code-show_from (suc n) n [] (omega arith) refl
