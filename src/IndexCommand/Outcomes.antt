-- ===== src/IndexCommand/Outcomes.antt =====
-- What the commands leave.
use text.Mathlib.Text.{◌==◌}
use sta_generation_service.Prelude.{
  String, true, false, none, ◌≡◌, ◌⊎◌, inl, inr, refl, ap, ◌∙◌, Bool-cases,
}
use sta_generation_service.Text.{lower}
use sta_generation_service.IndexCommand.{
  Index, Options, World, finished, Run, perform, next, write, done, if_exists, populate_,
  create_new, create_, delete_then, rebuild_,
}

-- What the calls of an index promise.
pub record Works {S : Type 0} (index : Index S) : Type 0 where
  pub deleted :
      (s : S) → ((index.delete_any s).0 ≡ none) × (index.exists_ (index.delete_any s).1 ≡ false)
  pub created :
      (s : S)
      → index.exists_ s ≡ false
      → ((index.create_index s).0 ≡ none) × (index.exists_ (index.create_index s).1 ≡ true)
  pub populated :
      (s : S)
      → index.exists_ s ≡ true
      → ((index.index_all s).0 ≡ none) × (index.exists_ (index.index_all s).1 ≡ true)

-- The index after it is deleted, created and populated.
abbrev pub fresh : {S : Type 0} → Index S → S → S
fresh index s = (index.index_all (index.create_index (index.delete_any s).1).1).1

module _ {S : Type 0} (index : Index S) (works : Works index) (options : Options) where
  create-fresh :
      (w : World S)
      → index.exists_ w.index ≡ false
      → (v : World S) × (create_ index options w ≡ (finished, v))
        × (v.index ≡ (index.create_index w.index).1)
  unfolding create_ create_new perform next done
  create-fresh w missing =
      let (made, there) = works.created w.index missing in
      (
        write "Index created." (record w { index = (index.create_index w.index).1 }),
        rw (create_, missing, create_new, perform, made) refl,
        refl,
      )

  populate-fresh :
      (w : World S)
      → index.exists_ w.index ≡ true
      → (v : World S) × (populate_ index options w ≡ (finished, v))
        × (v.index ≡ (index.index_all w.index).1)
  unfolding populate_ if_exists perform next done write
  populate-fresh w there =
      let (filled, still) = works.populated w.index there in
      (
        write "Index populated." (record w { index = (index.index_all w.index).1 }),
        rw (populate_, if_exists, there, perform, filled) refl,
        refl,
      )

  confirmed :
      (answer : String) (run : Run S) (w : World S)
      → (options.force ≡ true) ⊎ ((lower answer == "y") ≡ true)
      → delete_then index options answer run w
        ≡ run (write "Index deleted." (record w { index = (index.delete_any w.index).1 }))
  unfolding delete_then perform next
  confirmed answer run w (inl force) =
      rw (delete_then, force, perform, (works.deleted w.index).0) refl
  confirmed answer run w (inr agreed) = elim (Bool-cases options.force) [
    | inl force ↦ rw (delete_then, force, perform, (works.deleted w.index).0) refl
    | inr asked ↦ rw (delete_then, asked, agreed, perform, (works.deleted w.index).0) refl
  ]

-- Where the calls of the index do what they promise, a rebuild that is forced or confirmed ends
-- normally with an index that exists: the old one deleted, created anew and populated.
pub rebuild-fresh :
    {S : Type 0} (index : Index S) (options : Options) (answer : String) (w : World S)
    → Works index
    → (options.force ≡ true) ⊎ ((lower answer == "y") ≡ true)
    → (v : World S) × (rebuild_ index options answer w ≡ (finished, v))
      × (v.index ≡ fresh index w.index)
      × (index.exists_ v.index ≡ true)
unfolding rebuild_ next write
rebuild-fresh {S} index options answer w works sure =
    let (gone, missing) = works.deleted w.index in
    let cleared : World S =
      write "Index deleted." (record w { index = (index.delete_any w.index).1 }) in
    let (u, created, same) = create-fresh index works options cleared missing in
    let (made, there) = works.created (index.delete_any w.index).1 missing in
    let there' : index.exists_ u.index ≡ true = rw same there in
    let (v, populated, same') = populate-fresh index works options u there' in
    let again : Run S = λ x. next (create_ index options x) (populate_ index options) in
    let finish : next (create_ index options cleared) (populate_ index options) ≡ (finished, v) =
      rw (created, next) populated in
    (
      v,
      confirmed index works options answer again w sure ∙ finish,
      same' ∙ ap (λ s. (index.index_all s).1) same,
      ap index.exists_ same' ∙ (works.populated u.index there').1,
    )

-- A rebuild that is neither forced nor confirmed ends normally and leaves the index as it is.
rebuild-aborted :
    {S : Type 0} (index : Index S) (options : Options) (answer : String) (w : World S)
    → options.force ≡ false
    → (lower answer == "y") ≡ false
    → (v : World S) × (rebuild_ index options answer w ≡ (finished, v)) × (v.index ≡ w.index)
unfolding rebuild_ delete_then write
rebuild-aborted index options answer w asked declined =
    (write "Aborted" w, rw (rebuild_, delete_then, asked, declined) refl, refl)
