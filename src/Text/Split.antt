-- ===== src/Text/Split.antt =====
-- How texts split at a character.
use Prim.Native.String.{[], ◌∷◌}
use mathlib.Core.List.{List, [], ◌∷◌, ◌++◌}
use text.Mathlib.TextLemmas.{nil-append, cons-append}
use sta_generation_service.Prelude.{
  ℕ, Char, code, String, Bool, true, false, ◌||◌, ◌==◌, ◌≡◌, refl, sym, ap, ◌∙◌, arith, Bool-cases,
  inl, inr, All, if-intro,
}
use sta_generation_service.Text.{◌<>◌, join_head, split_on}

-- Whether a character of the text has the code `b`.
abbrev pub has_code : ℕ → String → Bool
has_code b [] = false
has_code b (c ∷ s) = code c == b || has_code b s

module _ (b : ℕ) where
  -- The parts are one at least.
  pub split_on-cons : (s : String) → (w : String) × (ws : List String) × (split_on b s ≡ w ∷ ws)
  unfolding split_on
  split_on-cons [] = ([], [], refl)
  split_on-cons (c ∷ s) = elim (Bool-cases (code c == b)) [
    | inl here ↦ ([], split_on b s, rw (split_on, here) refl)
    | inr there ↦
        let (w, ws, e) = split_on-cons s in (c ∷ w, ws, rw (split_on, there) (ap (join_head c) e))
  ]

  -- A text without the character is the one part.
  pub split_on-whole : (s : String) → has_code b s ≡ false → split_on b s ≡ s ∷ []
  unfolding split_on
  split_on-whole [] h = refl
  split_on-whole (c ∷ s) h =
      let here : (code c == b) ≡ false = ground arith in
      let later : has_code b s ≡ false = ground arith in
      rw (split_on, here) (ap (join_head c) (split_on-whole s later))

  -- A text with it has two at least.
  pub split_on-two :
      (s : String)
      → has_code b s ≡ true
      → (v w : String) × (ws : List String) × (split_on b s ≡ v ∷ w ∷ ws)
  unfolding split_on
  split_on-two [] h = cc
  split_on-two (c ∷ s) h = elim (Bool-cases (code c == b)) [
    | inl here ↦
        let (w, ws, e) = split_on-cons s in ([], w, ws, rw (split_on, here) (ap (λ l. [] ∷ l) e))
    | inr there ↦
        let later : has_code b s ≡ true = ground arith in
        let (v, w, ws, e) = split_on-two s later in
        (c ∷ v, w, ws, rw (split_on, there) (ap (join_head c) e))
  ]

  -- Two texts with the character between them.
  pub split_on-append :
      (s : String) (c : Char) (t : String)
      → (code c == b) ≡ true
      → split_on b (s <> (c ∷ t)) ≡ split_on b s ++ split_on b t
  unfolding split_on
  split_on-append [] c t h = rw (nil-append, split_on, h) refl
  split_on-append (d ∷ s) c t h =
      let ih = split_on-append s c t h in
      elim (Bool-cases (code d == b)) [
        | inl here ↦ rw (cons-append, split_on, here) (ap (λ l. [] ∷ l) ih)
        | inr there ↦
            let (w, ws, e) = split_on-cons s in
            rw (cons-append, split_on, there)
              (ap (join_head d) ih
                ∙ ap (λ l. join_head d (l ++ split_on b t)) e
                ∙ ap (λ l. l ++ split_on b t) (ap (join_head d) (sym e)))
      ]

  join_head-All :
      (c : Char) (ws : List String)
      → (code c == b) ≡ false
      → All (λ w. has_code b w ≡ false) ws
      → All (λ w. has_code b w ≡ false) (join_head c ws)
  join_head-All c [] other all = (ground arith, tt)
  join_head-All c (w ∷ ws) other (here, later) = (ground arith, later)

  -- No part has the character.
  pub split_on-All : (s : String) → All (λ w. has_code b w ≡ false) (split_on b s)
  unfolding split_on
  split_on-All [] = (refl, tt)
  split_on-All (c ∷ s) =
      if-intro (All (λ w. has_code b w ≡ false)) (code c == b) (λ here. (refl, split_on-All s))
        (λ there. join_head-All c (split_on b s) there (split_on-All s))
