-- ===== src/Factory/Disk.antt =====
-- The calls of `os` that internal/factory/render.go and archive.go write files with. A path under a
-- directory being written is that directory's path and a relative path; the folders between are
-- implied. Each call takes a moment: whether it fails, the name a temporary file gets, and what
-- another process has put, by then, at a path that was free.
pub mod Unmoved
pub mod Keeps
pub mod Ensures
pub mod Held
use Prim.Native.String
use saas_reaper.Base.{
  String, Bool, true, false, Option, none, some, List, [], ◌∷◌, if◌then◌else◌, Result, ok, err,
}
use saas_reaper.Factory.Validate.{Problem}
use saas_reaper.Base.Map.{Map, lookup, insert, delete, has}

pub data Entry : Type 0 where
  file : String → Entry
  symlink : String → Entry

abbrev pub Tree : Type 0
Tree = Map Entry

-- A directory, a ZIP archive, or another file.
pub data Node : Type 0 where
  directory : Tree → Node
  archive : Map String → Node
  other_file : String → Node

pub record Moment : Type 0 where
  pub fails : Bool
  pub suffix : String
  pub arrival : Option (String × Node)

pub record Disk : Type 0 where
  pub nodes : Map Node
  pub moments : List Moment

abbrev pub arrive : Option (String × Node) → Map Node → Map Node
arrive none nodes = nodes
arrive (some (path, node)) nodes = if has path nodes then nodes else insert path node nodes

abbrev quiet : Moment
quiet = record { fails = false; suffix = ""; arrival = none }

-- The moment of the next call, and the disk at it.
abbrev pub turn_of : List Moment → Map Node → Moment × Disk
turn_of [] nodes = (quiet, record { nodes = nodes; moments = [] })
turn_of (m ∷ ms) nodes = (m, record { nodes = arrive m.arrival nodes; moments = ms })

unfoldable pub turn : Disk → Moment × Disk
turn d = turn_of d.moments d.nodes

-- Each message that Generate may fail with, named.
pub data Failure : Type 0 where
  invalid : Problem → Failure
  unresolved_destination unregistered_delivery output_exists uninspected_output : Failure
  no_parent no_staging unencoded_recipe unencoded_attribute : Failure
  unread_template unparsed_template no_output_parent output_collision : Failure
  uncreated_output unrendered_output unclosed_output : Failure
  unread_skills no_skill_projection unlinked_skill unwritten_recipe no_publisher : Failure
  unpublished_directory incomplete_archive : Failure
  no_archive unarchived unfinished_archive unclosed_archive unpublished_archive : Failure

abbrev pub Files : Type 0 → Type 0
Files A = Disk → Result Failure A × Disk

module _ {A : Type 0} where
  abbrev pub settle : Option (A × Map Node) → Failure → Disk → Result Failure A × Disk
  settle none e d = (err e, d)
  settle (some (a, nodes)) e d = (ok a, record d { nodes = nodes })

  -- A call that fails, or that cannot do what it is asked for, changes nothing.
  unfoldable pub call : (String → Map Node → Option (A × Map Node)) → Failure → Files A
  call f e d =
      let (m, now) = turn d in settle (if m.fails then none else f m.suffix now.nodes) e now

  unfoldable pub lift : Result Failure A → Files A
  lift r d = (r, d)

  -- The outcome as a value.
  unfoldable pub try : Files A → Files (Result Failure A)
  try m d = (ok (m d).0, (m d).1)

  -- `defer`, where the error of the deferred call is dropped
  unfoldable pub finally : Files (Unit {0}) → Files A → Files A
  finally last m d = ((m d).0, (last (m d).1).1)

module _ {A B : Type 0} where
  abbrev pub followed : (A → Files B) → Result Failure A × Disk → Result Failure B × Disk
  followed f (ok a, d) = f a d
  followed f (err e, d) = (err e, d)

  infixl 5 ◌>>=◌ ◌>>◌
  unfoldable pub ◌>>=◌ : Files A → (A → Files B) → Files B
  (m >>= f) d = followed f (m d)

  abbrev pub ◌>>◌ : Files A → Files B → Files B
  m >> k = m >>= λ _. k

-- os.Stat and os.Lstat
pub data Status : Type 0 where
  found missing unreadable : Status

unfoldable pub stat : (Map Node → Bool) → Files Status
stat exists d =
    let (m, now) = turn d in
    (ok (if m.fails then unreadable else if exists now.nodes then found else missing), now)

module _ {A : Type 0} where
  abbrev pub written : String → Map Node → Option (A × Tree) → Option (A × Map Node)
  written root nodes none = none
  written root nodes (some (a, tree)) = some (a, insert root (directory tree) nodes)

  abbrev pub on_directory :
      (Tree → Option (A × Tree)) → String → Map Node → Option Node → Option (A × Map Node)
  on_directory f root nodes (some (directory tree)) = written root nodes (f tree)
  on_directory f root nodes _ = none

  -- Writing under the directory `root`.
  unfoldable pub under :
      String → (Tree → Option (A × Tree)) → String → Map Node → Option (A × Map Node)
  under root f suffix nodes = on_directory f root nodes (lookup root nodes)

module _ {A : Type 0} where
  abbrev pub seen : Map Node → Option A → Option (A × Map Node)
  seen nodes none = none
  seen nodes (some a) = some (a, nodes)

  abbrev pub looked : (Tree → Option A) → Map Node → Option Node → Option (A × Map Node)
  looked f nodes (some (directory tree)) = seen nodes (f tree)
  looked f nodes _ = none

  -- Reading under the directory `root`.
  unfoldable pub look : String → (Tree → Option A) → String → Map Node → Option (A × Map Node)
  look root f suffix nodes = looked f nodes (lookup root nodes)

-- os.Mkdir of a folder that need not be free: a directory that is there stays as it is.
abbrev pub made : String → Map Node → Option Node → Option (Unit {0} × Map Node)
made path nodes none = some (tt, insert path (directory []) nodes)
made path nodes (some (directory tree)) = some (tt, nodes)
made path nodes (some _) = none

unfoldable pub make_folder : String → String → Map Node → Option (Unit {0} × Map Node)
make_folder path suffix nodes = made path nodes (lookup path nodes)

-- os.MkdirAll of the outermost folder first. Those that were made before a failure stay.
abbrev pub make_folders : List String → Failure → Files (Unit {0})
make_folders [] e = lift (ok tt)
make_folders (path ∷ paths) e = do call (make_folder path) e; make_folders paths e

-- os.MkdirAll of a folder inside a directory being written, whose tree implies its folders.
abbrev pub mkdir_within : String → Map Node → Option (Unit {0} × Map Node)
mkdir_within suffix nodes = some (tt, nodes)

-- Closing a file
abbrev pub close : String → Map Node → Option (Unit {0} × Map Node)
close suffix nodes = some (tt, nodes)

-- os.MkdirTemp and os.CreateTemp: a name that is free
unfoldable pub make_temp : String → Node → String → Map Node → Option (String × Map Node)
make_temp prefix node suffix nodes =
    let path = String.◌++◌ prefix suffix in
    if has path nodes then none else some (path, insert path node nodes)

abbrev pub replaceable : Option Node → Bool
replaceable none = true
replaceable (some (directory [])) = true
replaceable (some _) = false

abbrev pub renamed : String → String → Map Node → Option Node → Option (Unit {0} × Map Node)
renamed from to nodes none = none
renamed from to nodes (some node) =
    if replaceable (lookup to nodes) then some (tt, insert to node (delete from nodes)) else none

-- os.Rename of a directory, which may take the place of an empty directory only
unfoldable pub rename : String → String → String → Map Node → Option (Unit {0} × Map Node)
rename from to suffix nodes = renamed from to nodes (lookup from nodes)

abbrev pub linked : String → Map Node → Option Node → Option (Unit {0} × Map Node)
linked to nodes none = none
linked to nodes (some node) = if has to nodes then none else some (tt, insert to node nodes)

-- os.Link, which never takes another's place
unfoldable pub hard_link : String → String → String → Map Node → Option (Unit {0} × Map Node)
hard_link from to suffix nodes = linked to nodes (lookup from nodes)

-- os.Remove of a file and os.RemoveAll
unfoldable pub remove : String → String → Map Node → Option (Unit {0} × Map Node)
remove path suffix nodes = some (tt, delete path nodes)
