-- ===== src/Factory/Generate/Published.antt =====
-- internal/factory/render.go and archive.go: what handing a repository over does to a path.
use Prim.Native.String
use saas_reaper.Base.{
  String, true, false, Option, none, some, List, [], ◌∷◌, ◌++◌, ◌≡◌, refl, ◌∙◌, subst, ◌==◌, inl,
  inr, is_some, Bool-cases, Option-cases, eq_iff,
}
use saas_reaper.Base.Text.{after_prefix, after_prefix-append}
use saas_reaper.Base.Map.{Map, lookup, has, insert, delete, lookup-insert, lookup-delete}
use saas_reaper.Factory.Disk.{
  Node, archive, other_file, directory, make_temp, remove, hard_link, rename, replaceable, linked,
  renamed,
}
use saas_reaper.Factory.Disk.Keeps.{
  Keeps, FailsQuietly, Spares, lift-Keeps, call-Keeps, call-FailsQuietly, call-Yields, bind-Keeps,
  bind-Keeps_given, bind-FailsQuietly, bind-FailsQuietly_given, finally-Keeps, finally-FailsQuietly,
  try-Keeps,
}
use saas_reaper.Factory.Generate.Staged.{same-Spares, look-Spares}
use saas_reaper.Factory.Generate.{
  appended, copied, opened, copy_in, copy_all, fill_archive, archive_prefix, write_archive,
}

-- A path whose name could be that of a temporary file.
abbrev pub HasPrefix : String → String → Type 0
HasPrefix prefix path = is_some (after_prefix path prefix) ≡ true

-- The path is not one that begins with `prefix`.
abbrev pub Avoids : String → String → Type 0
Avoids prefix path = after_prefix path prefix ≡ none

-- A path that begins with `prefix` is another than one that does not.
pub Avoids-apart :
    (prefix path temporary : String)
    → Avoids prefix path
    → HasPrefix prefix temporary
    → (temporary == path) ≡ false
Avoids-apart prefix path temporary a h = elim (Bool-cases (temporary == path)) [
  | inl e ↦
      let w = subst (λ t. is_some (after_prefix t prefix) ≡ true) ((eq_iff temporary path).0 e) h in
      let v = rw a at w in cc
  | inr e ↦ e
]

pub make_temp-HasPrefix :
    (prefix : String) (node : Node) (s : String) (nodes : Map Node) (a : String)
    (changed : Map Node)
    → make_temp prefix node s nodes ≡ some (a, changed)
    → HasPrefix prefix a
unfolding make_temp
make_temp-HasPrefix prefix node s nodes a changed h =
    elim (Bool-cases (has (String.◌++◌ prefix s) nodes)) [
      | inl e ↦ let w = rw e at h in cc
      | inr e ↦
          let same : String.◌++◌ prefix s ≡ a = let w = rw e at h in cc in
          subst (HasPrefix prefix) same (rw (after_prefix-append prefix s) refl)
    ]

module _ (p : String) where
  pub make_temp-Spares :
      (prefix : String) (node : Node) → Avoids prefix p → Spares p (make_temp prefix node)
  unfolding make_temp
  make_temp-Spares prefix node av s nodes a changed h =
      elim (Bool-cases (has (String.◌++◌ prefix s) nodes)) [
        | inl e ↦ let w = rw e at h in cc
        | inr e ↦
            let x : insert (String.◌++◌ prefix s) node nodes ≡ changed = let w = rw e at h in cc in
            let apart =
              Avoids-apart prefix p (String.◌++◌ prefix s) av
                (rw (after_prefix-append prefix s) refl) in
            subst (λ changed. lookup p changed ≡ lookup p nodes) x
              (rw (lookup-insert (String.◌++◌ prefix s) p node nodes, apart) refl)
      ]

  module _ (path : String) (apart : (path == p) ≡ false) where
    pub remove-Spares : Spares p (remove path)
    unfolding remove
    remove-Spares s nodes a changed h =
        let x : delete path nodes ≡ changed = cc in
        subst (λ changed. lookup p changed ≡ lookup p nodes) x
          (rw (lookup-delete path p nodes, apart) refl)

    insert_elsewhere :
        (node : Node) (nodes changed : Map Node)
        → insert path node nodes ≡ changed
        → lookup p changed ≡ lookup p nodes
    insert_elsewhere node nodes changed h =
        subst (λ changed. lookup p changed ≡ lookup p nodes) h
          (rw (lookup-insert path p node nodes, apart) refl)

    appended-elsewhere :
        (name text : String) (nodes : Map Node) (holds : Option Node) (changed : Map Node)
        → appended path name text nodes holds ≡ some (tt, changed)
        → lookup p changed ≡ lookup p nodes
    appended-elsewhere name text nodes none changed h = cc
    appended-elsewhere name text nodes (some (directory tree)) changed h = cc
    appended-elsewhere name text nodes (some (other_file t)) changed h = cc
    appended-elsewhere name text nodes (some (archive contents)) changed h =
        insert_elsewhere (archive (contents ++ (name, text) ∷ [])) nodes changed cc

    copied-elsewhere :
        (name entry : String) (nodes : Map Node) (holds : Option Node) (changed : Map Node)
        → copied path name entry nodes holds ≡ some (tt, changed)
        → lookup p changed ≡ lookup p nodes
    copied-elsewhere name entry nodes none changed h = cc
    copied-elsewhere name entry nodes (some (archive contents)) changed h = cc
    copied-elsewhere name entry nodes (some (other_file t)) changed h = cc
    copied-elsewhere name entry nodes (some (directory tree)) changed h =
        elim (Option-cases (opened tree (lookup entry tree))) [
          | inl e ↦ let w = rw e at h in cc
          | inr (text, e) ↦
              appended-elsewhere name text nodes (lookup path nodes) changed (rw e at h)
        ]

    copy_in-Spares :
        (source root_name entry : String) → Spares p (copy_in source path root_name entry)
    unfolding copy_in
    copy_in-Spares source root_name entry s nodes a changed h =
        copied-elsewhere _ entry nodes (lookup source nodes) changed h

    linked-elsewhere :
        (nodes : Map Node) (holds : Option Node) (changed : Map Node)
        → linked path nodes holds ≡ some (tt, changed)
        → lookup p changed ≡ lookup p nodes
    linked-elsewhere nodes none changed h = cc
    linked-elsewhere nodes (some node) changed h = elim (Bool-cases (has path nodes)) [
      | inl e ↦ let w = rw e at h in cc
      | inr e ↦ insert_elsewhere node nodes changed (let w = rw e at h in cc)
    ]

    pub hard_link-Spares : (from : String) → Spares p (hard_link from path)
    unfolding hard_link
    hard_link-Spares from s nodes a changed h = linked-elsewhere nodes (lookup from nodes) changed h

    renamed-elsewhere :
        (from : String) (nodes : Map Node) (holds : Option Node) (changed : Map Node)
        → (from == p) ≡ false
        → renamed from path nodes holds ≡ some (tt, changed)
        → lookup p changed ≡ lookup p nodes
    renamed-elsewhere from nodes none changed other h = cc
    renamed-elsewhere from nodes (some node) changed other h =
        elim (Bool-cases (replaceable (lookup path nodes))) [
          | inl e ↦
              insert_elsewhere node (delete from nodes) changed (let w = rw e at h in cc)
              ∙ rw (lookup-delete from p nodes, other) refl
          | inr e ↦ let w = rw e at h in cc
        ]

    pub rename-Spares : (from : String) → (from == p) ≡ false → Spares p (rename from path)
    unfolding rename
    rename-Spares from other s nodes a changed h =
        renamed-elsewhere from nodes (lookup from nodes) changed other h

module _ (p : String) where
  module _ (source temporary root_name : String) (apart : (temporary == p) ≡ false) where
    copy_all-Keeps : (paths : List String) → Keeps p (copy_all source temporary root_name paths)
    copy_all-Keeps [] = lift-Keeps p _
    copy_all-Keeps (path ∷ paths) =
        bind-Keeps p _ _ (call-Keeps p _ _ (copy_in-Spares p temporary apart source root_name path))
          (λ done. copy_all-Keeps paths)

    pub fill_archive-Keeps : Keeps p (fill_archive source temporary root_name)
    fill_archive-Keeps =
        search
          (bind-Keeps, lift-Keeps, call-Keeps, try-Keeps, same-Spares, look-Spares, copy_all-Keeps)
          depth 12

  module _ (parent_of : String → String) (source destination root_name : String)
      (away : Avoids (archive_prefix parent_of destination) p) where
    pub write_archive-FailsQuietly :
        FailsQuietly p (write_archive parent_of source destination root_name)
    unfolding write_archive
    write_archive-FailsQuietly =
        bind-FailsQuietly_given p _ _ (HasPrefix (archive_prefix parent_of destination))
          (call-Yields p _ _ _
            (make_temp-HasPrefix (archive_prefix parent_of destination) (archive [])))
          (call-Keeps p _ _ (make_temp-Spares p _ _ away))
          (λ temporary made.
            let apart = Avoids-apart _ p temporary away made in
            finally-FailsQuietly p _ _ (call-Keeps p _ _ (remove-Spares p temporary apart)) (
              bind-FailsQuietly p _ _ (fill_archive-Keeps source temporary root_name apart)
                (λ done. call-FailsQuietly p _ _)))

    pub write_archive-Keeps :
        (destination == p) ≡ false → Keeps p (write_archive parent_of source destination root_name)
    unfolding write_archive
    write_archive-Keeps other =
        bind-Keeps_given p _ _ (HasPrefix (archive_prefix parent_of destination))
          (call-Yields p _ _ _
            (make_temp-HasPrefix (archive_prefix parent_of destination) (archive [])))
          (call-Keeps p _ _ (make_temp-Spares p _ _ away))
          (λ temporary made.
            let apart = Avoids-apart _ p temporary away made in
            finally-Keeps p _ _ (call-Keeps p _ _ (remove-Spares p temporary apart)) (
              bind-Keeps p _ _ (fill_archive-Keeps source temporary root_name apart)
                (λ done. call-Keeps p _ _ (hard_link-Spares p destination other temporary))))
