-- ===== src/Factory/Generate/Undone.antt =====
-- internal/factory/render.go: a publication that fails leaves no output.
use Prim.Native.String
use Prim.Native.String.append
use saas_reaper.Base.{
  String, false, Option, none, some, [], ◌≡◌, refl, sym, ◌∙◌, ap, subst, ◌≢◌, ◌==◌, inl, inr, err,
  Bool-cases, Option-cases, eq_iff, eq_refl,
}
use saas_reaper.Base.Map.{Map, lookup, has, delete, lookup-delete}
use saas_reaper.Factory.Catalog.{
  DeliveryPublisher, directory_publisher, zip_publisher, both_publisher,
}
use saas_reaper.Factory.Validate.{Recipe}
use saas_reaper.Factory.Disk.{
  Node, archive, Failure, Files, call, lift, try, ◌>>=◌, remove, hard_link, rename, linked,
}
use saas_reaper.Factory.Disk.Keeps.{
  Keeps, FailsQuietly, lift-Keeps, call-Keeps, call-FailsQuietly, call-Yields, bind-Keeps,
  bind-FailsQuietly, fails_first,
}
use saas_reaper.Factory.Generate.{
  archive_prefix, write_archive, publish_directory, publish_zip, publish_directory_and_zip,
  publish_with, publish_repository,
}
use saas_reaper.Factory.Disk.{Disk, turn, incomplete_archive, unpublished_directory}
use saas_reaper.Factory.Disk.Unmoved.{IsUnmoved-trans, turn-IsUnmoved, free_throughout}
use saas_reaper.Factory.Disk.Keeps.{
  NeedsFree, call-cases, call-NeedsFree, finally-NeedsFree, bind-NeedsFree_given, outcome,
}
use saas_reaper.Factory.Generate.{Artifacts, archive_of, unless_published}
use saas_reaper.Factory.Generate.Published.{
  Avoids, HasPrefix, Avoids-apart, make_temp-HasPrefix, make_temp-Spares, remove-Spares,
  fill_archive-Keeps, write_archive-Keeps, write_archive-FailsQuietly,
}

-- A link is made at a free path.
pub linked-free :
    (to : String) (nodes : Map Node) (holds : Option Node) (changed : Map Node)
    → linked to nodes holds ≡ some (tt, changed)
    → lookup to nodes ≡ none
unfolding has
linked-free to nodes none changed h = cc
linked-free to nodes (some node) changed h = elim (Option-cases (lookup to nodes)) [
  | inl e ↦ e
  | inr (n, e) ↦ let w = rw e at h in cc
]

module _ (parent_of : String → String) (source destination root_name : String)
    (away : Avoids (archive_prefix parent_of destination) destination) where
  pub write_archive-NeedsFree :
      NeedsFree destination (write_archive parent_of source destination root_name)
  unfolding write_archive hard_link
  write_archive-NeedsFree =
      bind-NeedsFree_given destination _ _ (HasPrefix (archive_prefix parent_of destination))
        (call-Yields destination _ _ _
          (make_temp-HasPrefix (archive_prefix parent_of destination) (archive [])))
        (call-Keeps destination _ _ (make_temp-Spares destination _ _ away))
        (λ temporary made.
          let apart = Avoids-apart _ destination temporary away made in
          finally-NeedsFree destination _ _ (
            bind-NeedsFree_given destination _ _ (λ done. Unit) (λ d a h. tt)
              (fill_archive-Keeps destination source temporary root_name apart)
              (λ done q. call-NeedsFree destination _ _ (λ s nodes a changed h.
                linked-free destination nodes (lookup temporary nodes) changed h))))

module _ (destination packed from : String) where
  -- The directory is published or else the archive is taken back.
  abbrev pub move_or_undo : Files Artifacts
  move_or_undo =
      try (call (rename from destination) unpublished_directory)
      >>= unless_published destination packed

module _ (p destination packed from : String) where
  undo-Keeps :
      (packed == p) ≡ false → (e : Failure) → Keeps p (unless_published destination packed (err e))
  undo-Keeps apart e = search (bind-Keeps, call-Keeps, lift-Keeps, remove-Spares p packed apart)

  move_or_undo-FailsQuietly :
      (packed == p) ≡ false → FailsQuietly p (move_or_undo destination packed from)
  unfolding ◌>>=◌ try lift
  move_or_undo-FailsQuietly apart d x h n =
      elim (call-cases (rename from destination) unpublished_directory d) [
        | inl e ↦ rw e (
            IsUnmoved-trans p d (turn d).1 _ (turn-IsUnmoved p d)
              (undo-Keeps apart unpublished_directory (turn d).1))
        | inr (s, (a, (nodes, (z, e)))) ↦ let w = rw e at h in cc
      ]

-- Where the directory could not be published, the archive is gone.
move_or_undo-clears :
    (from destination packed : String) (d : Disk) (x : Failure)
    → (move_or_undo destination packed from d).0 ≡ err x
    → x ≢ incomplete_archive
    → lookup packed (move_or_undo destination packed from d).1.nodes ≡ none
unfolding ◌>>=◌ try lift remove
move_or_undo-clears from destination packed d x h n =
    elim (call-cases (rename from destination) unpublished_directory d) [
      | inr (s, (a, (nodes, (z, e)))) ↦ let w = rw e at h in cc
      | inl e ↦ elim (call-cases (remove packed) incomplete_archive (turn d).1) [
        | inl y ↦ let w = rw (e, y) at h in let v : x ≡ incomplete_archive = cc in absurd (n v)
        | inr (s, (a, (nodes, (z, y)))) ↦
            let gone : delete packed (turn (turn d).1).1.nodes ≡ nodes = cc in
            rw (e, y)
              (subst (λ nodes. lookup packed nodes ≡ none) gone
                (rw (lookup-delete packed packed _, eq_refl packed) refl))
      ]
    ]

-- The empty path is none that anything is written at.
Avoids-empty : (parent : String) → Avoids (String.◌++◌ parent "/.reaper-archive-") ""
Avoids-empty String.[] = refl
Avoids-empty (String.◌∷◌ c parent) = rw (append.cons c parent "/.reaper-archive-") refl

archive_of_nonempty : (destination : String) → (archive_of destination == "") ≡ false
archive_of_nonempty String.[] = refl
archive_of_nonempty (String.◌∷◌ c s) = elim (Bool-cases (archive_of (String.◌∷◌ c s) == "")) [
  | inr e ↦ e
  | inl e ↦
      let x = sym (append.cons c s ".zip") ∙ (eq_iff (archive_of (String.◌∷◌ c s)) "").0 e in cc
]

module _ (parent_of : String → String) (p source destination root_name : String) where
  publish_directory-FailsQuietly : FailsQuietly p (publish_directory source destination)
  unfolding publish_directory lift
  publish_directory-FailsQuietly = fails_first p _ _ (call-FailsQuietly p _ _) (λ a d. (_, refl))

  module _ (away : Avoids (archive_prefix parent_of (archive_of destination)) p) where
    publish_zip-FailsQuietly : FailsQuietly p (publish_zip parent_of source destination root_name)
    unfolding publish_zip lift
    publish_zip-FailsQuietly =
        fails_first p _ _ (write_archive-FailsQuietly p parent_of source _ root_name away)
          (λ a d. (_, refl))

    both-FailsQuietly_elsewhere :
        (archive_of destination == p) ≡ false
        → FailsQuietly p (publish_directory_and_zip parent_of source destination root_name)
    unfolding publish_directory_and_zip
    both-FailsQuietly_elsewhere other =
        bind-FailsQuietly p _ _ (write_archive-Keeps p parent_of source _ root_name away other)
          (λ done. move_or_undo-FailsQuietly p destination (archive_of destination) source other)

module _ (parent_of : String → String) (source destination root_name : String)
    (away : Avoids
      (archive_prefix parent_of (archive_of destination))
      (archive_of destination)) where
  both-FailsQuietly_archive :
      FailsQuietly
        (archive_of destination)
        (publish_directory_and_zip parent_of source destination root_name)
  unfolding publish_directory_and_zip ◌>>=◌
  both-FailsQuietly_archive d x h n =
      elim (outcome (write_archive parent_of source (archive_of destination) root_name d)) [
        | inr (e, (after, z)) ↦
            let v = rw z at h in
            let same : e ≡ x = cc in
            let w =
              write_archive-FailsQuietly (archive_of destination) parent_of source
                (archive_of destination) root_name away d x (rw z (ap err same)) n in
            rw z (rw z at w)
        | inl (done, (after, z)) ↦
            let elsewhere =
              both-FailsQuietly_elsewhere parent_of "" source destination root_name (Avoids-empty _)
                (archive_of_nonempty destination) d x h n in
            let free =
              write_archive-NeedsFree parent_of source (archive_of destination) root_name away d
                done (ap (λ r. r.0) z) in
            free_throughout (archive_of destination) "" d _ elsewhere free (
              rw z (
                move_or_undo-clears source destination (archive_of destination) after x (rw z at h)
                  n))
      ]

module _ (parent_of : String → String) (p source destination root_name : String)
    (away : Avoids (archive_prefix parent_of (archive_of destination)) p) where
  both-FailsQuietly :
      FailsQuietly p (publish_directory_and_zip parent_of source destination root_name)
  both-FailsQuietly = elim (Bool-cases (archive_of destination == p)) [
    | inr e ↦ both-FailsQuietly_elsewhere parent_of p source destination root_name away e
    | inl e ↦
        let same = (eq_iff (archive_of destination) p).0 e in
        subst
          (λ p. FailsQuietly p (publish_directory_and_zip parent_of source destination root_name))
          same
          (both-FailsQuietly_archive parent_of source destination root_name (
            subst (λ p. Avoids (archive_prefix parent_of (archive_of destination)) p) (sym same)
              away))
  ]

  publish_with-FailsQuietly :
      (publisher : DeliveryPublisher)
      → FailsQuietly p (publish_with parent_of publisher source destination root_name)
  publish_with-FailsQuietly directory_publisher =
      publish_directory-FailsQuietly parent_of p source destination root_name
  publish_with-FailsQuietly zip_publisher =
      publish_zip-FailsQuietly parent_of p source destination root_name away
  publish_with-FailsQuietly both_publisher = both-FailsQuietly

module _ (parent_of : String → String) (p source destination : String)
    (away : Avoids (archive_prefix parent_of (archive_of destination)) p) where
  pub publish_repository-FailsQuietly :
      (recipe : Recipe) → FailsQuietly p (publish_repository parent_of source destination recipe)
  unfolding publish_repository
  publish_repository-FailsQuietly recipe = bind-FailsQuietly p _ _ (lift-Keeps p _) (λ delivery.
      publish_with-FailsQuietly parent_of p source destination recipe.name away delivery.publish)
