-- ===== src/Migrations/Undo.antt =====
-- The downgrades take back what the upgrades did.
use mathlib.Core.List.{List, [], ◌∷◌, ◌++◌, append_assoc, append-nil}
use sta_generation_service.Prelude.{
  ℕ, zero, suc, Bool, true, false, none, some, ◌≡◌, refl, sym, ap, ◌∙◌, All, All-append, take,
  Option-cases, inl, inr,
}
use sta_generation_service.Migrations.{
  Command, create_table, drop_table, create_index, drop_index, add_column, drop_column, Revision,
  revisions, Apply, and_then, run, upgrade_all, downgrade_all,
}

-- The command that takes back one which adds something, and whether a command does.
abbrev pub undo : Command → Command
undo (create_table table columns primary_key) = drop_table table
undo (create_index index table columns unique) = drop_index index table
undo (add_column table column) = drop_column table column.name
undo command = command

abbrev pub adds : Command → Bool
adds (create_table table columns primary_key) = true
adds (create_index index table columns unique) = true
adds (add_column table column) = true
adds command = false

-- What alembic and the database promise of it.
abbrev pub Undoes : {D : Type 0} → Apply D → Type 0
Undoes {D} apply =
    (command : Command) (d d' : D)
    → adds command ≡ true
    → apply command d ≡ some d'
    → apply (undo command) d' ≡ some d

abbrev undo_all : List Command → List Command
undo_all [] = []
undo_all (command ∷ commands) = undo_all commands ++ undo command ∷ []

module _ {D : Type 0} (apply : Apply D) where
  run-append :
      (first second : List Command) (d : D)
      → run apply (first ++ second) d ≡ and_then (run apply first d) (run apply second)
  unfolding run
  run-append [] second d = refl
  run-append (command ∷ first) second d = elim (Option-cases (apply command d)) [
    | inl fails ↦ rw (run, fails) refl
    | inr (e, done) ↦ rw (run, done) (run-append first second e)
  ]

  run-undo_all :
      Undoes apply
      → (commands : List Command) (d d' : D) → All (λ command. adds command ≡ true) commands
      → run apply commands d ≡ some d'
      → run apply (undo_all commands) d' ≡ some d
  unfolding run
  run-undo_all undoes [] d d' all h = sym h
  run-undo_all undoes (command ∷ commands) d d' (here, later) h =
      elim (Option-cases (apply command d)) [
        | inl fails ↦ let bad : none ≡ some d' = rw (run, fails) at h in absurd (cc)
        | inr (e, done) ↦
            let rest : run apply commands e ≡ some d' = rw (run, done) at h in
            run-append (undo_all commands) (undo command ∷ []) d'
            ∙ ap (λ o. and_then o (run apply (undo command ∷ [])))
                (run-undo_all undoes commands e d' later rest)
            ∙ ap (λ o. and_then o (run apply [])) (undoes command d e here done)
      ]

undo_all-append :
    (first second : List Command) → undo_all (first ++ second) ≡ undo_all second ++ undo_all first
undo_all-append [] second = sym (append-nil (undo_all second))
undo_all-append (command ∷ first) second =
    ap (λ l. l ++ undo command ∷ []) (undo_all-append first second)
    ∙ append_assoc (undo_all second) (undo_all first) (undo command ∷ [])

-- A revision whose upgrade adds only and whose downgrade takes it back in the other order.
abbrev Reversible : Revision → Type 0
Reversible r = All (λ command. adds command ≡ true) r.upgrade × (r.downgrade ≡ undo_all r.upgrade)

revisions-Reversible : All Reversible revisions
revisions-Reversible = (
  ((refl, (refl, (refl, tt))), refl),
  (((refl, tt), refl), (((refl, tt), refl), (((refl, tt), refl), tt))),
)

All-take : {A : Type 0} (P : A → Type 0) (n : ℕ) (xs : List A) → All P xs → All P (take n xs)
All-take P zero xs all = tt
All-take P (suc n) [] all = tt
All-take P (suc n) (x ∷ xs) (here, later) = (here, All-take P n xs later)

upgrade_all-adds :
    (rs : List Revision) → All Reversible rs → All (λ command. adds command ≡ true) (upgrade_all rs)
unfolding upgrade_all
upgrade_all-adds [] all = tt
upgrade_all-adds (r ∷ rs) ((adds_, _), later) =
    All-append r.upgrade (upgrade_all rs) _ adds_ (upgrade_all-adds rs later)

downgrade_all-undo_all :
    (rs : List Revision) → All Reversible rs → downgrade_all rs ≡ undo_all (upgrade_all rs)
unfolding upgrade_all downgrade_all
downgrade_all-undo_all [] all = refl
downgrade_all-undo_all (r ∷ rs) ((_, undone), later) =
    ap (λ l. l ++ r.downgrade) (downgrade_all-undo_all rs later)
    ∙ ap (λ l. undo_all (upgrade_all rs) ++ l) undone
    ∙ sym (undo_all-append r.upgrade (upgrade_all rs))

-- Any number of the revisions, from the first on, are taken back: where their upgrades succeed on a
-- database, their downgrades, the last one first, succeed on the result and give back the database as
-- it was. Of alembic it is asked that dropping undoes what was just created.
pub downgrade_all-upgrade_all :
    {D : Type 0} (apply : Apply D)
    → Undoes apply
    → (n : ℕ) (d d' : D) → run apply (upgrade_all (take n revisions)) d ≡ some d'
    → run apply (downgrade_all (take n revisions)) d' ≡ some d
downgrade_all-upgrade_all apply undoes n d d' h =
    let reversible = All-take Reversible n revisions revisions-Reversible in
    ap (λ commands. run apply commands d') (downgrade_all-undo_all (take n revisions) reversible)
    ∙ run-undo_all apply undoes (upgrade_all (take n revisions)) d d'
        (upgrade_all-adds (take n revisions) reversible) h
