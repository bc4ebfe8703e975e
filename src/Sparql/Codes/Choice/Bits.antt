-- ===== src/Sparql/Codes/Choice/Bits.antt =====
-- A mask of one bit and a shift read a binary digit.
use Prim.Native.Nat.{min, bit_and, digits, bit_and-bitwise}
use native.Mathlib.Nat.{pow-succ', div-div-eq-div-mul, mul-div-mul_left}
use sta_generation_service.Prelude.{
  ℕ, zero, suc, ◌+◌, ◌*◌, ◌/◌, ◌%◌, ◌^◌, ◌≤◌, ◌≡◌, refl, ◌∙◌, arith,
}
use sta_generation_service.Sparql.Codes.{bit_at}

-- The recursion that `bit_and` stands for, on `depth` digits at most.
abbrev masked : ℕ → ℕ → ℕ → ℕ
masked code mask depth = digits (λ _. zero) min depth code mask

-- A depth that is not below the code makes no difference.
settled :
    (code mask deep deeper : ℕ)
    → code ≤ deep
    → code ≤ deeper
    → masked code mask deep ≡ masked code mask deeper
settled zero mask zero zero h k = refl
settled zero mask zero (suc e) h k = refl
settled zero mask (suc d) zero h k = refl
settled zero mask (suc d) (suc e) h k = refl
settled (suc code) mask zero e h k = absurd (omega arith)
settled (suc code) mask (suc d) zero h k = absurd (omega arith)
settled (suc code) mask (suc d) (suc e) h k =
    let halves = settled (suc code / 2) (mask / 2) d e (omega arith) (omega arith) in omega arith

none_of_zero : (mask : ℕ) → bit_and 0 mask ≡ 0
none_of_zero mask = bit_and-bitwise 0 mask

-- One digit of both numbers at a time.
bit_and-halves :
    (code mask : ℕ)
    → bit_and code mask ≡ min (code % 2) (mask % 2) + 2 * bit_and (code / 2) (mask / 2)
bit_and-halves zero mask = omega (arith, none_of_zero mask, none_of_zero (mask / 2))
bit_and-halves (suc code) mask =
    let half = suc code / 2 in
    let same = settled half (mask / 2) code half (omega arith) (omega arith) in
    omega (arith, bit_and-bitwise half (mask / 2), bit_and-bitwise (suc code) mask, same)

no_mask : (depth code : ℕ) → code ≤ depth → bit_and code 0 ≡ 0
no_mask depth zero h = none_of_zero 0
no_mask zero (suc code) h = absurd (omega arith)
no_mask (suc depth) (suc code) h =
    let rest = no_mask depth (suc code / 2) (omega arith) in
    omega (arith, bit_and-halves (suc code) 0)

bit_and_mask : (code pos : ℕ) → bit_and code (2 ^ suc pos) ≡ 2 * bit_and (code / 2) (2 ^ pos)
bit_and_mask code pos =
    let half : 2 ^ suc pos / 2 ≡ 2 ^ pos = omega (arith, pow-succ' 2 pos) in
    let halves = rw half at (bit_and-halves code (2 ^ suc pos)) in omega (arith, pow-succ' 2 pos)

-- `(code & (1 << pos)) >> pos` is the binary digit of `code` at `pos`.
pub bit_at-eq : (code pos : ℕ) → bit_at code pos ≡ code / 2 ^ pos % 2
unfolding bit_at
bit_at-eq code zero =
    omega (arith, bit_and-halves code 1, no_mask (code / 2) (code / 2) (omega arith))
bit_at-eq code (suc pos) =
    rw (bit_and_mask code pos, pow-succ' 2 pos, ← div-div-eq-div-mul code 2 (2 ^ pos))
      (mul-div-mul_left {m = 2} (bit_and (code / 2) (2 ^ pos)) (2 ^ pos) (omega arith)
        ∙ bit_at-eq (code / 2) pos)
