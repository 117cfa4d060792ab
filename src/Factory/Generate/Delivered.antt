-- ===== src/Factory/Generate/Delivered.antt =====
-- internal/factory/render.go: what a generation that succeeds leaves at the destination.
use saas_reaper.Base.{String, false, ◌≡◌, ◌≢◌, sym, ap, subst, inl, inr, ok, err, ◌==◌}
use saas_reaper.Base.Map.{HasUniqueKeys}
use saas_reaper.Factory.Catalog.{
  DeliveryPublisher, directory_publisher, zip_publisher, both_publisher,
}
use saas_reaper.Factory.Validate.{Recipe}
use saas_reaper.Factory.Disk.{
  Tree, Node, directory, Disk, Failure, call, lift, try, finally, ◌>>=◌, rename, remove,
  incomplete_archive, unpublished_directory,
}
use saas_reaper.Factory.Disk.Unmoved.{held_after}
use saas_reaper.Factory.Disk.Keeps.{call-Keeps, outcome}
use saas_reaper.Factory.Disk.Ensures.{Ensures, Holds, bind-Ensures, holding-Ensures}
use saas_reaper.Factory.Render.{Toolkit}
use saas_reaper.Factory.Generate.{
  Artifacts, archive_of, write_archive, publish_directory, publish_zip, publish_directory_and_zip,
  publish_with, publish_repository, unless_published,
}
use saas_reaper.Factory.Generate.Published.{remove-Spares, fill_archive-Keeps}
use saas_reaper.Factory.Generate.Expected.{repository_of}
use saas_reaper.Factory.Generate.Complete.{Complete}
use saas_reaper.Factory.Generate.Undone.{move_or_undo}
use saas_reaper.Factory.Generate.Moved.{make_temp-Ensures, hard_link-Ensures, rename-Ensures}

abbrev directory_result : String → String → Artifacts
directory_result path packed = record { directory = path; archive = packed }

module _ (staging destination : String) (node : Node) where
  -- What is given of a directory: it is at the destination.
  abbrev Delivered : Artifacts → Disk → Type 0
  Delivered result d =
      (result.directory == "") ≡ false → (result.directory ≡ destination) × Holds destination node d

  publish_directory-Ensures :
      Ensures (Holds staging node) (publish_directory staging destination) Delivered
  unfolding Ensures publish_directory lift
  publish_directory-Ensures =
      bind-Ensures _ _ (Holds staging node) (λ done. Holds destination node) Delivered
        (rename-Ensures staging node destination _)
        (λ done d h r e n.
          let same : directory_result destination "" ≡ r = cc in
          (ap (λ r. r.directory) (sym same), h))

  undo_is_error :
      (packed : String) (x : Failure) (d : Disk) (r : Artifacts)
      → (unless_published destination packed (err x) d).0 ≢ ok r
  unfolding ◌>>=◌ lift
  undo_is_error packed x d r e = elim (outcome (call (remove packed) incomplete_archive d)) [
    | inl (u, (after, z)) ↦ let w = rw z at e in cc
    | inr (y, (after, z)) ↦ let w = rw z at e in cc
  ]

  move_or_undo-Ensures :
      (packed : String)
      → Ensures (Holds staging node) (move_or_undo destination packed staging) Delivered
  unfolding Ensures ◌>>=◌ try lift
  move_or_undo-Ensures packed d h r e = λ n.
      elim (outcome (call (rename staging destination) unpublished_directory d)) [
        | inl (u, (after, z)) ↦
            let moved =
              rename-Ensures staging node destination unpublished_directory d h u
                (ap (λ r. r.0) z) in
            let v = rw z at e in
            let same : directory_result destination packed ≡ r = cc in
            (ap (λ r. r.directory) (sym same), rw z (rw z at moved))
        | inr (x, (after, z)) ↦ absurd (undo_is_error packed x after r (rw z at e))
      ]

module _ (parent_of : String → String) (staging root_name : String) (node : Node) where
  write_archive-Ensures :
      (to : String)
      → Ensures
          (Holds staging node)
          (write_archive parent_of staging to root_name)
          (λ done. Holds staging node)
  unfolding Ensures write_archive finally
  write_archive-Ensures to =
      bind-Ensures _ _ (Holds staging node)
        (λ path d. ((path == staging) ≡ false) × Holds staging node d) (λ done. Holds staging node)
        (make_temp-Ensures staging node _ _ _)
        (λ path d (apart, h) a e.
          let kept =
            bind-Ensures _ _ (Holds staging node) (λ done. Holds staging node)
              (λ done. Holds staging node)
              (holding-Ensures staging node _
                (fill_archive-Keeps staging staging path root_name apart))
              (λ done. hard_link-Ensures staging node path to _) d h a e in
          held_after staging _ _ node (call-Keeps staging _ _ (remove-Spares staging path apart) _)
            kept)

  publish_with-Ensures :
      (publisher : DeliveryPublisher) (destination : String)
      → Ensures
          (Holds staging node)
          (publish_with parent_of publisher staging destination root_name)
          (Delivered staging destination node)
  unfolding Ensures publish_zip publish_directory_and_zip lift
  publish_with-Ensures directory_publisher destination =
      publish_directory-Ensures staging destination node
  publish_with-Ensures zip_publisher destination =
      bind-Ensures _ _ (Holds staging node) (λ done. Holds staging node)
        (Delivered staging destination node) (write_archive-Ensures (archive_of destination))
        (λ done d h r e n.
          let same : directory_result "" (archive_of destination) ≡ r = cc in
          let w = subst (λ r. (r.directory == "") ≡ false) (sym same) n in cc)
  publish_with-Ensures both_publisher destination =
      bind-Ensures _ _ (Holds staging node) (λ done. Holds staging node)
        (Delivered staging destination node) (write_archive-Ensures (archive_of destination))
        (λ done. move_or_undo-Ensures staging destination node (archive_of destination))

module _ (toolkit : Toolkit) (recipe : Recipe) where
  -- The whole repository is at the destination.
  unfoldable pub AtDestination : String → Artifacts → Disk → Type 0
  AtDestination absolute result d =
      (result.directory == "") ≡ false
      → (result.directory ≡ absolute)
        × ((tree : Tree) × ((repository_of toolkit recipe ≡ ok tree)
              × (HasUniqueKeys tree × Holds absolute (directory tree) d)))

  pub publish_repository-Ensures :
      (staging absolute : String)
      → Ensures
          (Complete toolkit staging recipe)
          (publish_repository toolkit.parent_of staging absolute recipe)
          (AtDestination absolute)
  unfolding Ensures publish_repository lift AtDestination
  publish_repository-Ensures staging absolute =
      bind-Ensures _ _ (Complete toolkit staging recipe)
        (λ delivery. Complete toolkit staging recipe) (AtDestination absolute) (λ d h a e. h)
        (λ delivery d (tree, (e, (u, h))) r x n.
          let (same, there) =
            publish_with-Ensures toolkit.parent_of staging recipe.name (directory tree)
              delivery.publish absolute d h r x n in
          (same, (tree, (e, (u, there)))))
