-- ===== src/Dict/Laws.antt =====
-- What a lookup finds after an update of a dict.
use mathlib.Core.List.{[], ◌∷◌}
use text.Mathlib.Text.{◌==◌}
use sta_generation_service.Prelude.{
  String, none, some, if◌then◌else◌, ◌≡◌, ◌≢◌, refl, arith, eq_iff, false,
}
use sta_generation_service.Dict.{Dict, lookup, insert, erase}

module _ {ℓ} {V : Type ℓ} where
  pub lookup-insert :
      (k j : String) (v : V) (d : Dict V)
      → lookup j (insert k v d) ≡ (if k == j then some v else lookup j d)
  unfolding lookup insert
  lookup-insert k j v [] = refl
  lookup-insert k j v ((i, w) ∷ d) =
      ground (arith, eq_iff k j, eq_iff i k, eq_iff i j, lookup-insert k j v d)

  pub lookup-erase :
      (k j : String) (d : Dict V) → lookup j (erase k d) ≡ (if k == j then none else lookup j d)
  unfolding lookup erase
  lookup-erase k j [] = ground arith
  lookup-erase k j ((i, w) ∷ d) =
      ground (arith, eq_iff k j, eq_iff i k, eq_iff i j, lookup-erase k j d)

pub eq_of_ne : (k j : String) → k ≢ j → (k == j) ≡ false
eq_of_ne k j h = ground (arith, eq_iff k j)
