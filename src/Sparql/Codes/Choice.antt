-- ===== src/Sparql/Codes/Choice.antt =====
-- Which code is chosen: the first one that agrees with the cached properties on the bits.
mod Bits
use mathlib.Core.List.{List, [], ◌∷◌}
use sta_generation_service.Prelude.{
  ℕ, zero, suc, ◌+◌, ◌/◌, ◌%◌, ◌^◌, ◌<◌, Bool, true, false, Option, none, some, ◌≡◌, ◌↔◌, refl, ap,
  subst, arith, All, Bool-cases, inl, inr, get_elem?, ==_iff, sym, ◌==◌,
}
use sta_generation_service.Errors.{Result, ok, err, ◌>>=◌}
use sta_generation_service.Sparql.Codes.{bit_at, bits_same, choose_code, index_of}
use Bits.{bit_at-eq}

-- Two codes have the same binary digits at the positions `bits`.
abbrev pub Agree : List ℕ → ℕ → ℕ → Type 0
Agree bits a b = All (λ pos. a / 2 ^ pos % 2 ≡ b / 2 ^ pos % 2) bits

-- The loop over masks and shifts compares binary digits.
pub bits_same_iff : (bits : List ℕ) (a b : ℕ) → (bits_same bits a b ≡ true) ↔ Agree bits a b
unfolding bits_same
bits_same_iff [] a b = (λ h. tt, λ h. refl)
bits_same_iff (pos ∷ bits) a b =
    ground (arith, bit_at-eq a pos, bit_at-eq b pos, bits_same_iff bits a b)

-- The code at a place whose predecessors all fail to agree.
abbrev pub IsFirst : List ℕ → ℕ → List ℕ → ℕ → ℕ → Type 0
IsFirst bits cached codes code i =
    (get_elem? codes i ≡ some code)
    × Agree bits code cached
    × ((j c : ℕ) → j < i → get_elem? codes j ≡ some c → ¬ Agree bits c cached)

-- No code is chosen exactly when none agrees.
choose_code-none_iff :
    (bits : List ℕ) (cached : ℕ) (codes : List ℕ)
    → (choose_code (some bits) cached codes ≡ ok none) ↔ All (λ c. ¬ Agree bits c cached) codes
unfolding choose_code
choose_code-none_iff bits cached [] = (λ h. tt, λ h. refl)
choose_code-none_iff bits cached (c ∷ codes) = elim (Bool-cases (bits_same bits c cached)) [
  | inl same ↦ rw same (λ h. cc, λ h. absurd (h.0 ((bits_same_iff bits c cached).0 same)))
  | inr other ↦ rw other (
    λ h.
        (λ a. cc ((bits_same_iff bits c cached).1 a), (choose_code-none_iff bits cached codes).0 h),
    λ h. (choose_code-none_iff bits cached codes).1 h.1,
  )
]

module _ (bits : List ℕ) (cached c code : ℕ) (codes : List ℕ) where
  differs : bits_same bits c cached ≡ false → Agree bits code cached → (c == code) ≡ false
  differs other agree = ground (arith, bits_same_iff bits code cached)

  earlier :
      (i : ℕ)
      → bits_same bits c cached ≡ false
      → ((j d : ℕ) → j < i → get_elem? codes j ≡ some d → ¬ Agree bits d cached)
      → (j d : ℕ) → j < suc i
      → get_elem? (c ∷ codes) j ≡ some d
      → ¬ Agree bits d cached
  earlier i other before zero d lt at agree = ground (arith, bits_same_iff bits d cached)
  earlier i other before (suc j) d lt at agree = before j d (omega arith) at agree

-- What is chosen is found by `index_of` at the first place that agrees.
pub choose_code-IsFirst :
    (bits : List ℕ) (cached : ℕ) (codes : List ℕ) (code : ℕ)
    → choose_code (some bits) cached codes ≡ ok (some code)
    → (i : ℕ) × (index_of code codes ≡ ok i) × IsFirst bits cached codes code i
unfolding choose_code index_of
choose_code-IsFirst bits cached [] code h = cc
choose_code-IsFirst bits cached (c ∷ codes) code h = elim (Bool-cases (bits_same bits c cached)) [
  | inl same ↦
      let e : c ≡ code = ground arith in
      (
        0,
        ground arith,
        (
          ap some e,
          subst (λ x. Agree bits x cached) e ((bits_same_iff bits c cached).0 same),
          λ j d lt at. absurd (omega arith),
        ),
      )
  | inr other ↦
      let (i, found, first) =
        choose_code-IsFirst bits cached codes code (rw (other, choose_code) at h) in
      (
        suc i,
        rw (differs bits cached c code codes other first.1, found),
        (first.0, first.1, earlier bits cached c code codes i other first.2),
      )
]

-- A code at the first place that agrees is the one that is chosen, and it is found there.
pub IsFirst-choose_code :
    (bits : List ℕ) (cached : ℕ) (codes : List ℕ) (code i : ℕ)
    → IsFirst bits cached codes code i
    → (choose_code (some bits) cached codes ≡ ok (some code)) × (index_of code codes ≡ ok i)
unfolding choose_code index_of
IsFirst-choose_code bits cached [] code i (at, agree, before) = absurd (cc)
IsFirst-choose_code bits cached (c ∷ codes) code zero (at, agree, before) =
    let e : c ≡ code = ground arith in
    let same = (bits_same_iff bits c cached).1 (subst (λ x. Agree bits x cached) (sym e) agree) in
    let found = (==_iff c code).1 e in (rw (same) (ap (λ x. ok (some x)) e), rw (found) refl)
IsFirst-choose_code bits cached (c ∷ codes) code (suc i) (at, agree, before) =
    elim (Bool-cases (bits_same bits c cached)) [
      | inl same ↦ absurd (before 0 c (omega arith) refl ((bits_same_iff bits c cached).0 same))
      | inr other ↦
          let (picked, found) =
            IsFirst-choose_code bits cached codes code i
              (at, agree, λ j d lt here. before (suc j) d (omega arith) here) in
          (rw (other, choose_code) picked, rw (differs bits cached c code codes other agree, found))
    ]
