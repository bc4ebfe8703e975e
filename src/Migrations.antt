-- ===== src/Migrations.antt =====
-- The revisions of src/sta/alembic/versions, as the commands that they give to alembic. What alembic
-- does with a command is outside.
pub mod Undo
use mathlib.Core.List.{List, [], ◌∷◌, ◌++◌}
use sta_generation_service.Prelude.{String, Bool, true, false, Option, none, some}

pub data ColumnType : Type 0 where
  integer : ColumnType
  string : ColumnType
  array : ColumnType → ColumnType

pub record Column : Type 0 where
  pub name : String
  pub type : ColumnType
  pub nullable : Bool

-- The calls of `op`.
pub data Command : Type 0 where
  create_table : (table : String) (columns : List Column) (primary_key : List String) → Command
  drop_table : (table : String) → Command
  create_index : (index table : String) (columns : List String) (unique : Bool) → Command
  drop_index : (index table : String) → Command
  add_column : (table : String) → Column → Command
  drop_column : (table column : String) → Command

pub record Revision : Type 0 where
  pub revision : String
  pub down_revision : Option String
  pub upgrade : List Command
  pub downgrade : List Command

abbrev pub create_pilots : Revision
create_pilots = record {
  revision = "4ee601c954b9";
  down_revision = none;
  upgrade =
      create_table "pilots"
        (record { name = "id"; type = integer; nullable = false }
          ∷ record { name = "name"; type = string; nullable = true }
          ∷ record { name = "graphs"; type = array string; nullable = true }
          ∷ [])
        ("id" ∷ [])
      ∷ create_index "ix_pilots_id" "pilots" ("id" ∷ []) false
      ∷ create_index "ix_pilots_name" "pilots" ("name" ∷ []) true
      ∷ [];
  downgrade =
      drop_index "ix_pilots_name" "pilots"
      ∷ drop_index "ix_pilots_id" "pilots"
      ∷ drop_table "pilots"
      ∷ [];
}

abbrev pub add_description : Revision
add_description = record {
  revision = "e580ba4fcca4";
  down_revision = some "4ee601c954b9";
  upgrade =
      add_column "pilots" (record { name = "description"; type = string; nullable = true }) ∷ [];
  downgrade = drop_column "pilots" "description" ∷ [];
}

abbrev pub add_custom_endpoint : Revision
add_custom_endpoint = record {
  revision = "e68d3af8412e";
  down_revision = some "e580ba4fcca4";
  upgrade =
      add_column "pilots" (record { name = "custom_endpoint"; type = string; nullable = true })
      ∷ [];
  downgrade = drop_column "pilots" "custom_endpoint" ∷ [];
}

abbrev pub add_cached_properties : Revision
add_cached_properties = record {
  revision = "729c29e6721a";
  down_revision = some "e68d3af8412e";
  upgrade =
      add_column "pilots" (record { name = "cached_properties"; type = integer; nullable = true })
      ∷ [];
  downgrade = drop_column "pilots" "cached_properties" ∷ [];
}

-- In the order that `down_revision` gives.
abbrev pub revisions : List Revision
revisions = create_pilots ∷ add_description ∷ add_custom_endpoint ∷ add_cached_properties ∷ []

-- alembic's part: a command on a database, which fails where it does not apply.
abbrev pub Apply : Type 0 → Type 0
Apply D = Command → D → Option D

abbrev pub and_then : {D : Type 0} → Option D → (D → Option D) → Option D
and_then none f = none
and_then (some d) f = f d

unfoldable pub run : {D : Type 0} → Apply D → List Command → D → Option D
run apply [] d = some d
run apply (command ∷ commands) d = and_then (apply command d) (run apply commands)

-- The upgrades one after the other, and the downgrades from the last one back.
unfoldable pub upgrade_all : List Revision → List Command
upgrade_all [] = []
upgrade_all (r ∷ rs) = r.upgrade ++ upgrade_all rs

unfoldable pub downgrade_all : List Revision → List Command
downgrade_all [] = []
downgrade_all (r ∷ rs) = downgrade_all rs ++ r.downgrade
