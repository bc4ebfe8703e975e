-- ===== src/IndexCommand.antt =====
-- BaseIndexCommand of src/common/management/commands/_private.py, over an index that stands outside.
pub mod Outcomes
pub mod Quiet
use Prim.Native.String.{[], ◌∷◌}
use mathlib.Core.List.{List, [], ◌∷◌, ◌++◌}
use text.Mathlib.Text.{◌==◌}
use sta_generation_service.Prelude.{
  ℕ, String, Bool, true, false, not, Option, none, some, ltb, if◌then◌else◌,
}
use sta_generation_service.Text.{◌<>◌, lower}
use sta_generation_service.Text.Number.{show}

-- What a call of the index does: none, or the message of the exception that it raises, and the index
-- after it.
abbrev pub Effect : Type 0 → Type 0
Effect S = S → Option String × S

-- The index and the indexer of a command. `delete_any` is index.delete(ignore=404).
pub record Index (S : Type 0) : Type 0 where
  pub exists_ : S → Bool
  pub create_index : Effect S
  pub delete_index : Effect S
  pub delete_any : Effect S
  pub refresh : Effect S
  pub index_single : String → Effect S
  pub index_all : Effect S
  pub count : S → ℕ
  pub description : S → String

pub data Action : Type 0 where
  create populate delete rebuild status : Action

pub record Options : Type 0 where
  pub single : Option String
  pub action : Option Action
  pub refresh : Bool
  pub force : Bool
  pub quiet : Bool
  pub ignore_existing : Bool
  pub verbosity : ℕ

-- The index, and the lines that were written, the last one first.
pub record World (S : Type 0) : Type 0 where
  pub index : S
  pub lines : List String

-- How a method ends: normally, with a CommandError, or with another exception.
pub data End : Type 0 where
  finished : End
  command_error : (message : String) → End
  failed : (message : String) → End

abbrev pub Run : Type 0 → Type 0
Run S = World S → End × World S

ended : Option String → End
ended none = finished
ended (some message) = failed message

module _ {S : Type 0} where
  write : String → World S → World S
  write line w = record w { lines = line ∷ w.lines }

  unfoldable pub perform : Effect S → Run S
  unfolding ended
  perform effect w =
      let (raised, index) = effect w.index in (ended raised, record w { index = index })

  -- One run after another, unless the first one raises.
  unfoldable pub next : End × World S → Run S → End × World S
  next (finished, w) run = run w
  next (end, w) run = (end, w)

  unfoldable pub done : String → Run S
  unfolding write
  done line w = (finished, write line w)

  -- `_error`
  unfoldable pub error_ : Options → String → Run S
  unfolding write
  error_ options message w =
      if options.quiet then (finished, write message w) else (command_error message, w)

module _ {S : Type 0} (index : Index S) (options : Options) where
  -- The methods that need the index begin with `_index_exists`.
  unfoldable pub if_exists : Run S → Run S
  unfolding error_
  if_exists run w =
      if index.exists_ w.index then run w else error_ options "Index does not exist." w

  unfoldable pub single_ : String → Run S
  unfolding if_exists perform
  single_ identifier = if_exists (perform (index.index_single identifier))

  unfoldable pub populate_ : Run S
  unfolding if_exists perform next done
  populate_ = if_exists (λ w. next (perform index.index_all w) (done "Index populated."))

  create_new : Run S
  unfolding perform next done
  create_new w = next (perform index.create_index w) (done "Index created.")

  unfoldable pub create_ : Run S
  unfolding create_new perform next error_ done
  create_ w =
      if not (index.exists_ w.index)
      then create_new w
      else if options.force
      then next (perform index.delete_index w) create_new
      else if options.ignore_existing
      then done "Index already exists, finishing without any action." w
      else error_ options "Index already exists." w

  -- `delete` with the answer to its question, and what follows in `rebuild` where it returns True.
  unfoldable pub delete_then : String → Run S → Run S
  unfolding perform next write lower
  delete_then answer run w =
      let deleted : End × World S =
        next (perform index.delete_any w) (λ v. run (write "Index deleted." v)) in
      if options.force
      then deleted
      else if lower answer == "y"
      then deleted
      else (finished, write "Aborted" w)

  unfoldable pub delete_ : String → Run S
  unfolding delete_then
  delete_ answer = delete_then answer (λ w. (finished, w))

  unfoldable pub rebuild_ : String → Run S
  unfolding delete_then next create_ populate_
  rebuild_ answer = delete_then answer (λ w. next (create_ w) populate_)

  status_lines : Run S
  unfolding write show
  status_lines w =
      let counted = write ("Number of records: " <> show (index.count w.index)) w in
      let told = write (index.description w.index) (write "Index info:" counted) in
      (finished, if ltb 1 options.verbosity then told else counted)

  status_ : Run S
  unfolding if_exists status_lines
  status_ = if_exists status_lines

  unfoldable pub run_action : String → Action → Run S
  unfolding create_ populate_ delete_ rebuild_ status_
  run_action answer create = create_
  run_action answer populate = populate_
  run_action answer delete = delete_ answer
  run_action answer rebuild = rebuild_ answer
  run_action answer status = status_

  -- except Exception as e: self._error("Indexing failed: ...")
  rescued : End × World S → End × World S
  unfolding error_
  rescued (failed message, w) = error_ options ("Indexing failed: " <> message) w
  rescued (end, w) = (end, w)

  refreshed : Run S
  unfolding perform
  refreshed w = if options.refresh then perform index.refresh w else (finished, w)

  unfoldable pub run_guarded : Run S → Run S
  unfolding rescued refreshed next
  run_guarded run w = next (rescued (run w)) refreshed

  act : String → Option Action → Run S
  unfolding run_guarded run_action
  act answer none w = (
    command_error
        "Invalid action. Must be one of: --create, --populate, --single, --delete, --rebuild, --status.",
    w,
  )
  act answer (some action) w = run_guarded (run_action answer action) w

  -- `handle`, with the answer that is given if `delete` asks.
  unfoldable pub handle_command : String → Run S
  unfolding act run_guarded single_
  handle_command answer w = elim options.single [
    | none ↦ act answer options.action w
    | some identifier ↦
        if identifier == "" then act answer options.action w else run_guarded (single_ identifier) w
  ]
