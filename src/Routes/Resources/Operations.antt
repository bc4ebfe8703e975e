-- ===== src/Routes/Resources/Operations.antt =====
-- Which operations a loaded resource has, and with which queries.
use Prim.Native.String.{[], ◌∷◌}
use mathlib.Core.List.{List, [], ◌∷◌, Memᴰ}
use mathlib.Core.List.Memᴰ
use text.Mathlib.Text.{◌==◌}
use sta_generation_service.Prelude.{
  String, Option, none, some, ◌≡◌, refl, sym, ap, subst, ◌∙◌, arith, ◌⊎◌, inl, inr, Bool-cases,
  eq_iff, eq_refl,
}
use sta_generation_service.Errors.{Result, ok, err, >>=-eq-ok}
use sta_generation_service.Dict.{Dict, lookup, insert}
use sta_generation_service.Dict.Laws.{lookup-insert}
use sta_generation_service.Text.Join.{join-split_on}
use sta_generation_service.Models.{Resource}
use sta_generation_service.Sparql.Handler.{QueryFiles}
use sta_generation_service.Apps.Paths.{composites}
use sta_generation_service.Routes.{Folder, ResourceFiles, read_queries_from_files}
use sta_generation_service.Routes.Resources.{
  Entry, file, folder, Disk, entry_names, queries_of, read_operation, read_entry, add_composites,
  load_resource, read_select,
}

-- An operation of a resource has the queries that are in the folder of its name.
abbrev pub HasQueries : Dict Entry → (operation : String) → Dict QueryFiles → Type 0
HasQueries entries operation operations =
    (files : Folder) × (lookup operation entries ≡ some (folder files))
    × (lookup operation operations ≡ some (read_queries_from_files files))

queries_of-ok :
    (entry : Option Entry) {queries : QueryFiles}
    → queries_of entry ≡ ok queries
    → (files : Folder) × (entry ≡ some (folder files)) × (queries ≡ read_queries_from_files files)
unfolding queries_of
queries_of-ok none h = absurd (cc)
queries_of-ok (some (file content)) h = absurd (cc)
queries_of-ok (some (folder files)) h = (files, refl, ground arith)

abbrev operations_of : Result ResourceFiles → Dict QueryFiles
operations_of (ok files) = files.operations
operations_of (err e) = []

module _ (disk : Disk) (resource : Resource) where
  insert-HasQueries_self :
      (name : String) (queries : QueryFiles) (operations : Dict QueryFiles)
      → read_operation disk resource name ≡ ok queries
      → HasQueries (disk resource) name (insert name queries operations)
  unfolding read_operation
  insert-HasQueries_self name queries operations read =
      let (files, here, same) = queries_of-ok (lookup name (disk resource)) read in
      (
        files,
        here,
        lookup-insert name name queries operations ∙ rw (eq_refl name) (ap (λ q. some q) same),
      )

  insert-HasQueries :
      (key name : String) (queries : QueryFiles) (operations : Dict QueryFiles)
      → read_operation disk resource name ≡ ok queries
      → HasQueries (disk resource) key operations
      → HasQueries (disk resource) key (insert name queries operations)
  insert-HasQueries key name queries operations read (files, here, has) =
      elim (Bool-cases (name == key)) [
        | inl same ↦
            subst (λ k. HasQueries (disk resource) k (insert name queries operations))
              ((eq_iff name key).0 same) (insert-HasQueries_self name queries operations read)
        | inr other ↦ (files, here, lookup-insert name key queries operations ∙ rw other has)
      ]

  -- What has its queries keeps them, and each composite name gets its own.
  module _ (key : String) where
    add_composites-HasQueries :
        (names : List String) (operations : Dict QueryFiles) {after : Dict QueryFiles}
        → add_composites disk resource names operations ≡ ok after
        → Memᴰ key names ⊎ HasQueries (disk resource) key operations
        → HasQueries (disk resource) key after
    unfolding add_composites
    add_composites-HasQueries [] operations added (inl bad) = absurd (Memᴰ.not-nil bad)
    add_composites-HasQueries [] operations added (inr has) =
        subst (HasQueries (disk resource) key) (ground arith) has
    add_composites-HasQueries (name ∷ names) operations added known =
        let (queries, read, rest) = >>=-eq-ok (read_operation disk resource name) _ added in
        add_composites-HasQueries names (insert name queries operations)
          (ap (λ k. add_composites disk resource names (insert k queries operations))
              (sym (join-split_on "_" name))
            ∙ rest)
          (still known queries read)
      where
        still :
            Memᴰ key (name ∷ names) ⊎ HasQueries (disk resource) key operations
            → (queries : QueryFiles) → read_operation disk resource name ≡ ok queries
            → Memᴰ key names ⊎ HasQueries (disk resource) key (insert name queries operations)
        still (inl (Memᴰ.head same)) queries read = inr (
            subst (λ k. HasQueries (disk resource) k (insert name queries operations)) (sym same)
              (insert-HasQueries_self name queries operations read))
        still (inl (Memᴰ.tail m)) queries read = inl m
        still (inr has) queries read = inr (insert-HasQueries key name queries operations read has)

  literal-HasQueries :
      (key : String) {entry : ResourceFiles}
      → read_entry disk resource ≡ ok entry
      → (key ≡ "list") ⊎ (key ≡ "id")
      → HasQueries (disk resource) key entry.operations
  unfolding read_entry read_operation lookup
  literal-HasQueries key done known =
      let (select, _, done0) = >>=-eq-ok (read_select disk resource) _ done in
      let (lists, lists_read, done1) = >>=-eq-ok (read_operation disk resource "list") _ done0 in
      let (ids, ids_read, same) = >>=-eq-ok (read_operation disk resource "id") _ done1 in
      let e = ap operations_of same in
      subst (HasQueries (disk resource) key) e (either lists ids lists_read ids_read known)
    where
      either :
          (lists ids : QueryFiles)
          → read_operation disk resource "list" ≡ ok lists
          → read_operation disk resource "id" ≡ ok ids
          → (key ≡ "list") ⊎ (key ≡ "id")
          → HasQueries (disk resource) key (("list", lists) ∷ ("id", ids) ∷ [])
      either lists ids lists_read ids_read (inl same) =
          let (files, here, same') = queries_of-ok (lookup "list" (disk resource)) lists_read in
          subst (λ k. HasQueries (disk resource) k (("list", lists) ∷ ("id", ids) ∷ [])) (sym same)
            (files, here, ap (λ q. some q) same')
      either lists ids lists_read ids_read (inr same) =
          let (files, here, same') = queries_of-ok (lookup "id" (disk resource)) ids_read in
          subst (λ k. HasQueries (disk resource) k (("list", lists) ∷ ("id", ids) ∷ [])) (sym same)
            (files, here, ap (λ q. some q) same')

  -- What a loaded resource has: the literal operations and those of its composite names.
  pub load_resource-HasQueries :
      (key : String) {loaded : ResourceFiles}
      → load_resource disk resource ≡ ok loaded
      → ((key ≡ "list") ⊎ (key ≡ "id")) ⊎ Memᴰ key (composites (entry_names (disk resource)))
      → HasQueries (disk resource) key loaded.operations
  unfolding load_resource
  load_resource-HasQueries key done known =
      let (entry, entered, rest) = >>=-eq-ok (read_entry disk resource) _ done in
      let (operations, added, same) =
        >>=-eq-ok
          (add_composites disk resource (composites (entry_names (disk resource))) entry.operations)
          _ rest in
      subst (HasQueries (disk resource) key) (ap operations_of same) (
        add_composites-HasQueries key (composites (entry_names (disk resource))) entry.operations
          added
          (elim known [
            | inl literal ↦ inr (literal-HasQueries key entered literal)
            | inr composite ↦ inl composite
          ]))
