-- ===== src/Text/Join.antt =====
-- What is split at a character and joined again.
use Prim.Native.String.{[], ◌∷◌}
use mathlib.Core.List.{List, [], ◌∷◌}
use text.Mathlib.TextLemmas.{nil-append, cons-append}
use sta_generation_service.Prelude.{
  Char, code, String, ◌==◌, ==_iff, ◌≡◌, refl, sym, ap, ◌∙◌, Bool-cases, inl, inr, Char-path,
}
use sta_generation_service.Text.{◌<>◌, join_head, split_on, join}
use sta_generation_service.Text.Split.{split_on-cons}

module _ (sep : Char) where
  join-join_head :
      (c : Char) (w : String) (ws : List String)
      → join (sep ∷ []) (join_head c (w ∷ ws)) ≡ c ∷ join (sep ∷ []) (w ∷ ws)
  unfolding join
  join-join_head c w [] = refl
  join-join_head c w (v ∷ ws) = cons-append c w _

  one_sep : (t : String) → [] <> (sep ∷ []) <> t ≡ sep ∷ t
  one_sep t = rw (nil-append, cons-append, nil-append) refl

  pub join-split_on : (s : String) → join (sep ∷ []) (split_on (code sep) s) ≡ s
  unfolding join split_on
  join-split_on [] = refl
  join-split_on (c ∷ s) =
      let (w, ws, e) = split_on-cons (code sep) s in
      let rest = sym (ap (join (sep ∷ [])) e) ∙ join-split_on s in
      elim (Bool-cases (code c == code sep)) [
        | inl here ↦
            rw (split_on, here)
              (ap (λ l. join (sep ∷ []) ([] ∷ l)) e
                ∙ one_sep (join (sep ∷ []) (w ∷ ws))
                ∙ (λ i. Char-path sep c (sym ((==_iff _ _).0 here)) i ∷ rest i))
        | inr there ↦
            rw (split_on, there)
              (ap (λ l. join (sep ∷ []) (join_head c l)) e
                ∙ join-join_head c w ws
                ∙ ap (λ t. c ∷ t) rest)
      ]
