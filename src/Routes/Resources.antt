-- ===== src/Routes/Resources.antt =====
-- How the dict `resources` of sta/src/routers/general_router.py is read from the folders of the
-- resources, once, when the module is imported.
pub mod Operations
pub mod Served
use Prim.Native.String.{[], ◌∷◌}
use mathlib.Core.List.{List, [], ◌∷◌, map}
use sta_generation_service.Prelude.{String, Option, none, some}
use sta_generation_service.Errors.{Result, ok, err, os_error, ◌>>=◌}
use sta_generation_service.Dict.{Dict, lookup, insert}
use sta_generation_service.Text.{split_on, join}
use sta_generation_service.Models.{
  Resource, observations, datastreams, features_of_interest, historical_locations, locations,
  observed_properties, sensors, things,
}
use sta_generation_service.Sparql.Handler.{Select, single, simple_or_normal, QueryFiles}
use sta_generation_service.Apps.{Listing}
use sta_generation_service.Apps.Paths.{composites}
use sta_generation_service.Routes.{Folder, ResourceFiles, read_queries_from_files}

-- What stands in the folder of a resource under a name.
pub data Entry : Type 0 where
  file : (content : String) → Entry
  folder : Folder → Entry

-- resources/{resource_name}/, for each resource, in the order of os.listdir
abbrev pub Disk : Type 0
Disk = Resource → Dict Entry

abbrev pub entry_names : Dict Entry → List String
entry_names entries = map (λ (e : String × Entry). e.0) entries

-- What generate_pilot_apps lists.
abbrev pub listing_of : Disk → Listing
listing_of disk resource = entry_names (disk resource)

unfoldable content_of : Option Entry → Result String
content_of (some (file content)) = ok content
content_of _ = err os_error

unfoldable queries_of : Option Entry → Result QueryFiles
unfolding read_queries_from_files
queries_of (some (folder files)) = ok (read_queries_from_files files)
queries_of _ = err os_error

module _ (disk : Disk) where
  unfoldable pub read_select_from_file : Resource → (file_name : String) → Result String
  unfolding lookup content_of
  read_select_from_file resource file_name = content_of (lookup file_name (disk resource))

  -- The operation is read from the folder of its name.
  unfoldable pub read_operation : Resource → (operation : String) → Result QueryFiles
  unfolding lookup queries_of
  read_operation resource operation = queries_of (lookup operation (disk resource))

  read_select : Resource → Result Select
  unfolding read_select_from_file
  read_select observations =
      read_select_from_file observations "select_simple_result.rq" >>= λ simple.
      read_select_from_file observations "select_normal_result.rq" >>= λ normal.
      ok (simple_or_normal simple normal)
  read_select resource = read_select_from_file resource "select.rq" >>= λ select. ok (single select)

  -- The literal entry of a resource.
  read_entry : Resource → Result ResourceFiles
  unfolding read_select read_operation
  read_entry resource = read_select resource >>= λ select.
      read_operation resource "list" >>= λ list_. read_operation resource "id" >>= λ id_.
      ok (record { select = select; operations = ("list", list_) ∷ ("id", id_) ∷ [] })

  -- The loop over the composite names: each is split and joined again to the key.
  add_composites : Resource → List String → Dict QueryFiles → Result (Dict QueryFiles)
  unfolding read_operation split_on join insert
  add_composites resource [] operations = ok operations
  add_composites resource (name ∷ names) operations = read_operation resource name >>= λ queries.
      add_composites resource names (insert (join "_" (split_on b'_' name)) queries operations)

  unfoldable pub load_resource : Resource → Result ResourceFiles
  unfolding read_entry add_composites composites
  load_resource resource = read_entry resource >>= λ files.
      add_composites resource (composites (entry_names (disk resource))) files.operations
      >>= λ operations. ok (record files { operations = operations })
