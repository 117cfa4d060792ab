-- ===== src/Factory/Generate.antt =====
-- internal/factory/render.go and archive.go: where a repository is staged, how it is handed over, and
-- Generate.
pub mod Staged
pub mod Published
pub mod Undone
pub mod Atomic
pub mod Folders
pub mod Expected
pub mod Rendered
pub mod Added
pub mod Complete
pub mod Moved
pub mod Delivered
pub mod Available
pub mod Whole
mod Tests
use Prim.Native.String
use saas_reaper.Base.{
  String, Bool, true, false, Option, none, some, List, [], ◌∷◌, ◌++◌, map, ◌==◌, if◌then◌else◌,
  Result, ok, err,
}
use saas_reaper.Base.Map.{Map, lookup, insert, has}
use saas_reaper.Base.Text.{after_prefix}
use saas_reaper.Factory.Catalog.{
  DeliveryArtifacts, DeliveryPack, DeliveryPublisher, directory_publisher, zip_publisher,
  both_publisher, find_delivery,
}
use saas_reaper.Factory.Validate.{Problem, Recipe, validate_recipe}
use saas_reaper.Factory.Disk.{
  Entry, file, symlink, Tree, Node, directory, archive, Failure, invalid, unresolved_destination,
  unregistered_delivery, output_exists, uninspected_output, no_parent, no_staging, no_publisher,
  unpublished_directory, incomplete_archive, no_archive, unarchived, unfinished_archive,
  unclosed_archive, unpublished_archive, Files, call, lift, try, finally, ◌>>=◌, ◌>>◌, Status,
  found, missing, unreadable, stat, look, make_folders, close, make_temp, rename, hard_link, remove,
}
use saas_reaper.Factory.Render.{Toolkit}
use saas_reaper.Factory.Write.{render_repository}

-- Result: the artifacts handed to the customer
pub record Artifacts : Type 0 where
  pub directory : String
  pub archive : String

abbrev pub paths_of : DeliveryArtifacts → String → List String
paths_of artifacts destination =
    (if artifacts.directory then destination ∷ [] else [])
    ++ (if artifacts.archive_suffix == ""
        then []
        else String.◌++◌ destination artifacts.archive_suffix ∷ [])

-- The first look must not find an output, and the second must see that there is none.
abbrev pub refuse_found : Status → Files (Unit {0})
refuse_found found = lift (err output_exists)
refuse_found _ = lift (ok tt)

abbrev pub refuse_unless_missing : Status → Files (Unit {0})
refuse_unless_missing missing = lift (ok tt)
refuse_unless_missing _ = lift (err uninspected_output)

abbrev pub ensure_available : List String → Files (Unit {0})
ensure_available [] = lift (ok tt)
ensure_available (path ∷ paths) = do
  seen ← stat (has path)
  refuse_found seen
  again ← stat (has path)
  refuse_unless_missing again
  ensure_available paths

abbrev pub keys_of : Tree → List String
keys_of tree = map (λ entry. entry.0) tree

-- The text that opening an entry of the tree yields; a link of a skill leads to the root's `skills`.
abbrev pub text_of : Option Entry → Option String
text_of (some (file text)) = some text
text_of _ = none

abbrev pub opened : Tree → Option Entry → Option String
opened tree (some (symlink target)) = elim (after_prefix target "../../../") [
  | none ↦ none
  | some path ↦ text_of (lookup path tree)
]
opened tree entry = text_of entry

abbrev pub appended :
    String → String → String → Map Node → Option Node → Option (Unit {0} × Map Node)
appended temporary name text nodes (some (archive contents)) =
    some (tt, insert temporary (archive (contents ++ (name, text) ∷ [])) nodes)
appended temporary name text nodes _ = none

abbrev pub entered : String → String → Map Node → Option String → Option (Unit {0} × Map Node)
entered temporary name nodes none = none
entered temporary name nodes (some text) =
    appended temporary name text nodes (lookup temporary nodes)

abbrev pub copied : String → String → String → Map Node → Option Node → Option (Unit {0} × Map Node)
copied temporary name path nodes (some (directory tree)) =
    entered temporary name nodes (opened tree (lookup path tree))
copied temporary name path nodes _ = none

-- One file of the walk: its entry in the archive, the copy into it, and the closing of the file. They
-- fail alike and are one call.
unfoldable pub copy_in :
    String → String → String → String → String → Map Node → Option (Unit {0} × Map Node)
copy_in source temporary root_name path suffix nodes =
    copied temporary (String.◌++◌ root_name (String.◌++◌ "/" path)) path nodes (lookup source nodes)

abbrev pub copy_all : String → String → String → List String → Files (Unit {0})
copy_all source temporary root_name [] = lift (ok tt)
copy_all source temporary root_name (path ∷ paths) = do
  call (copy_in source temporary root_name path) unarchived
  copy_all source temporary root_name paths

-- The writer and the file are closed before the outcome of the walk is looked at.
abbrev pub fill_archive : String → String → String → Files (Unit {0})
fill_archive source temporary root_name = do
  walked ← try (do
    paths ← call (look source (λ tree. some (keys_of tree))) unarchived
    copy_all source temporary root_name paths)
  finished ← try (call close unfinished_archive)
  closed ← try (call close unclosed_archive)
  lift walked
  lift finished
  lift closed

abbrev pub archive_of : String → String
archive_of destination = String.◌++◌ destination ".zip"

unfoldable pub publish_directory : String → String → Files Artifacts
publish_directory staging destination = do
  call (rename staging destination) unpublished_directory
  lift (ok record { directory = destination; archive = "" })

-- The archive is removed again where the directory cannot be published.
abbrev pub unless_published : String → String → Result Failure (Unit {0}) → Files Artifacts
unless_published destination packed (ok done) =
    lift (ok record { directory = destination; archive = packed })
unless_published destination packed (err e) = do
  call (remove packed) incomplete_archive
  lift (err e)

abbrev pub registered : Option DeliveryPack → Failure → Result Failure DeliveryPack
registered none e = err e
registered (some delivery) e = ok delivery

module _ (parent_of : String → String) where
  abbrev pub archive_prefix : String → String
  archive_prefix destination = String.◌++◌ (parent_of destination) "/.reaper-archive-"

  unfoldable pub write_archive : String → String → String → Files (Unit {0})
  write_archive source destination root_name = do
    temporary ← call (make_temp (archive_prefix destination) (archive [])) no_archive
    finally (call (remove temporary) no_archive) (do
      fill_archive source temporary root_name
      call (hard_link temporary destination) unpublished_archive)

  unfoldable pub publish_zip : String → String → String → Files Artifacts
  publish_zip staging destination root_name = do
    write_archive staging (archive_of destination) root_name
    lift (ok record { directory = ""; archive = archive_of destination })

  unfoldable pub publish_directory_and_zip : String → String → String → Files Artifacts
  publish_directory_and_zip staging destination root_name = do
    write_archive staging (archive_of destination) root_name
    renamed ← try (call (rename staging destination) unpublished_directory)
    unless_published destination (archive_of destination) renamed

  abbrev pub publish_with : DeliveryPublisher → String → String → String → Files Artifacts
  publish_with directory_publisher staging destination root_name =
      publish_directory staging destination
  publish_with zip_publisher staging destination root_name =
      publish_zip staging destination root_name
  publish_with both_publisher staging destination root_name =
      publish_directory_and_zip staging destination root_name

  unfoldable pub publish_repository : String → String → Recipe → Files Artifacts
  publish_repository staging destination recipe = do
    delivery ← lift (registered (find_delivery recipe.format) no_publisher)
    publish_with delivery.publish staging destination recipe.name

abbrev pub resolved : Option String → Result Failure String
resolved none = err unresolved_destination
resolved (some path) = ok path

abbrev pub checked : Result Problem (Unit {0}) → Result Failure (Unit {0})
checked (ok done) = ok tt
checked (err problem) = err (invalid problem)

module _ (toolkit : Toolkit) where
  open toolkit use {absolute_path, parent_of, folders_of}

  abbrev pub staging_prefix : String → String
  staging_prefix absolute = String.◌++◌ (parent_of absolute) "/.reaper-generate-"

  -- The absolute path of the destination, and the staging directory.
  unfoldable pub prepare_destination : String → String → Files (String × String)
  prepare_destination destination delivery = do
    absolute ← lift (resolved (absolute_path destination))
    pack ← lift (registered (find_delivery delivery) unregistered_delivery)
    ensure_available (paths_of pack.artifacts absolute)
    make_folders (folders_of (parent_of absolute)) no_parent
    staging ← call (make_temp (staging_prefix absolute) (directory [])) no_staging
    lift (ok (absolute, staging))

  unfoldable pub generate : Recipe → String → Files Artifacts
  generate recipe destination = do
    lift (checked (validate_recipe recipe))
    prepared ← prepare_destination destination recipe.format
    finally (call (remove prepared.1) no_staging) (do
      render_repository toolkit prepared.1 recipe
      publish_repository parent_of prepared.1 prepared.0 recipe)
