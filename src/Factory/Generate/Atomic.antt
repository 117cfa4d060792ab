-- ===== src/Factory/Generate/Atomic.antt =====
-- internal/factory/render.go: a generation that fails leaves no output.
use saas_reaper.Base.{String, Bool, false, List, [], ◌∷◌, some, ◌≡◌, sym, subst, ok}
use saas_reaper.Factory.Catalog.{is_listed}
use saas_reaper.Factory.Validate.{Recipe, validate_recipe}
use saas_reaper.Factory.Disk.{
  Node, directory, Status, found, missing, unreadable, lift, finally, call, remove, no_staging,
  ◌>>◌,
}
use saas_reaper.Factory.Disk.Keeps.{
  Keeps, FailsQuietly, Yields, lift-Keeps, call-Keeps, stat-Keeps, bind-Keeps, call-Yields,
  bind-Yields, bind-Yields_any, bind-Keeps_given, bind-FailsQuietly, bind-FailsQuietly_given,
  finally-FailsQuietly,
}
use saas_reaper.Factory.Disk.Held.{
  KeepsHeld, FailsHolding, Keeps-KeepsHeld, FailsQuietly-FailsHolding, bind-KeepsHeld,
  bind-KeepsHeld_given, bind-FailsHolding,
}
use saas_reaper.Factory.Generate.Folders.{make_folders-Keeps, make_folders-KeepsHeld}
use saas_reaper.Factory.Write.{render_repository}
use saas_reaper.Factory.Render.{Toolkit}
use saas_reaper.Factory.Generate.{
  generate, prepare_destination, ensure_available, refuse_found, refuse_unless_missing,
  staging_prefix, archive_prefix, archive_of, resolved, checked, publish_repository,
}
use saas_reaper.Factory.Generate.Staged.{render_repository-Keeps}
use saas_reaper.Factory.Generate.Published.{
  Avoids, HasPrefix, Avoids-apart, make_temp-HasPrefix, make_temp-Spares, remove-Spares,
}
use saas_reaper.Factory.Generate.Undone.{publish_repository-FailsQuietly}

module _ (p : String) where
  pub refuse_found-Keeps : (status : Status) → Keeps p (refuse_found status)
  refuse_found-Keeps found = lift-Keeps p _
  refuse_found-Keeps missing = lift-Keeps p _
  refuse_found-Keeps unreadable = lift-Keeps p _

  pub refuse_unless_missing-Keeps : (status : Status) → Keeps p (refuse_unless_missing status)
  refuse_unless_missing-Keeps found = lift-Keeps p _
  refuse_unless_missing-Keeps missing = lift-Keeps p _
  refuse_unless_missing-Keeps unreadable = lift-Keeps p _

  ensure_available-Keeps : (paths : List String) → Keeps p (ensure_available paths)
  ensure_available-Keeps [] = lift-Keeps p _
  ensure_available-Keeps (path ∷ paths) =
      search
        (
          bind-Keeps,
          stat-Keeps,
          refuse_found-Keeps,
          refuse_unless_missing-Keeps,
          ensure_available-Keeps paths,
        )
        depth 10

-- The path is not one of a temporary file or directory of the generation.
unfoldable pub IsLasting : Toolkit → String → String → Type 0
IsLasting toolkit absolute p =
    Avoids (staging_prefix toolkit absolute) p
    × Avoids (archive_prefix toolkit.parent_of (archive_of absolute)) p

-- Whether the path is that of a directory that the destination is in.
abbrev pub is_folder : Toolkit → String → String → Bool
is_folder toolkit absolute p = is_listed p (toolkit.folders_of (toolkit.parent_of absolute))

module _ (toolkit : Toolkit) (destination absolute : String)
    (resolves : toolkit.absolute_path destination ≡ some absolute) where
  -- What is prepared: the absolute path, and a staging directory of the prefix.
  unfoldable pub IsPrepared : String × String → Type 0
  IsPrepared prepared =
      (prepared.0 ≡ absolute) × HasPrefix (staging_prefix toolkit absolute) prepared.1

  pub resolved-Yields :
      Yields (λ a. a ≡ absolute) (lift (resolved (toolkit.absolute_path destination)))
  unfolding lift
  resolved-Yields d a h = let w = rw resolves at h in cc

  lift-Yields : (a : String × String) → IsPrepared a → Yields IsPrepared (lift (ok a))
  unfolding lift IsPrepared
  lift-Yields a q d b h = let same : a ≡ b = cc in subst IsPrepared same q

  pub prepare_destination-Yields :
      (delivery : String) → Yields IsPrepared (prepare_destination toolkit destination delivery)
  unfolding prepare_destination IsPrepared
  prepare_destination-Yields delivery =
      bind-Yields _ _ (λ a. a ≡ absolute) IsPrepared resolved-Yields
        (λ a same. bind-Yields_any _ _ IsPrepared (λ pack.
          bind-Yields_any _ _ IsPrepared (λ available. bind-Yields_any _ _ IsPrepared (λ made.
            bind-Yields _ _ (HasPrefix (staging_prefix toolkit a)) IsPrepared
              (call-Yields "" _ _ _ (make_temp-HasPrefix (staging_prefix toolkit a) (directory [])))
              (λ staging h.
                lift-Yields (a, staging)
                  (same, subst (λ a. HasPrefix (staging_prefix toolkit a) staging) same h))))))

  module _ (p : String) (lasting : IsLasting toolkit absolute p) where
    prepare_destination-Keeps :
        (delivery : String)
        → is_folder toolkit absolute p ≡ false
        → Keeps p (prepare_destination toolkit destination delivery)
    unfolding prepare_destination IsLasting
    prepare_destination-Keeps delivery outside =
        bind-Keeps_given p _ _ (λ a. a ≡ absolute) resolved-Yields (lift-Keeps p _)
          (λ a same.
            let away = subst (λ a. Avoids (staging_prefix toolkit a) p) (sym same) lasting.0 in
            let elsewhere = subst (λ a. is_folder toolkit a p ≡ false) (sym same) outside in
            search
              (
                bind-Keeps, lift-Keeps, ensure_available-Keeps, call-Keeps, make_folders-Keeps,
                make_temp-Spares,
              )
              depth 14)

    prepare_destination-KeepsHeld :
        (delivery : String) (n : Node)
        → KeepsHeld p n (prepare_destination toolkit destination delivery)
    unfolding prepare_destination IsLasting
    prepare_destination-KeepsHeld delivery n =
        bind-KeepsHeld_given p n _ _ (λ a. a ≡ absolute) resolved-Yields
          (Keeps-KeepsHeld p n (lift (resolved (toolkit.absolute_path destination)))
            (lift-Keeps p _))
          (λ a same.
            let away = subst (λ a. Avoids (staging_prefix toolkit a) p) (sym same) lasting.0 in
            search
              (
                bind-KeepsHeld, Keeps-KeepsHeld, lift-Keeps, ensure_available-Keeps, call-Keeps,
                make_folders-KeepsHeld, make_temp-Spares,
              )
              depth 16)

    -- What follows the preparation.
    prepared-FailsQuietly :
        (recipe : Recipe) (prepared : String × String)
        → IsPrepared prepared
        → FailsQuietly p (
            finally (call (remove prepared.1) no_staging) (do
              render_repository toolkit prepared.1 recipe
              publish_repository toolkit.parent_of prepared.1 prepared.0 recipe))
    unfolding IsLasting IsPrepared
    prepared-FailsQuietly recipe prepared is =
        let apart = Avoids-apart _ p prepared.1 lasting.0 is.1 in
        finally-FailsQuietly p _ _ (call-Keeps p _ _ (remove-Spares p prepared.1 apart)) (
          bind-FailsQuietly p _ _ (render_repository-Keeps p prepared.1 apart toolkit recipe)
            (λ done.
              publish_repository-FailsQuietly toolkit.parent_of p prepared.1 prepared.0
                (subst (λ a. Avoids (archive_prefix toolkit.parent_of (archive_of a)) p) (sym is.0)
                  lasting.1)
                recipe))

    -- Where generation fails, but for an archive that could not be taken back, no path but those of
    -- temporary files and of the destination's directories is touched.
    pub generate-FailsQuietly :
        (recipe : Recipe)
        → is_folder toolkit absolute p ≡ false
        → FailsQuietly p (generate toolkit recipe destination)
    unfolding generate
    generate-FailsQuietly recipe outside = bind-FailsQuietly p _ _ (lift-Keeps p _) (λ valid.
        bind-FailsQuietly_given p _ _ IsPrepared (prepare_destination-Yields recipe.format)
          (prepare_destination-Keeps recipe.format outside) (prepared-FailsQuietly recipe))

    -- It leaves those of the destination's directories that were there as they were.
    pub generate-FailsHolding :
        (recipe : Recipe) (n : Node) → FailsHolding p n (generate toolkit recipe destination)
    unfolding generate
    generate-FailsHolding recipe n =
        bind-FailsHolding p n _ _ (λ valid. Unit) (λ d a h. tt)
          (Keeps-KeepsHeld p n (lift (checked (validate_recipe recipe))) (lift-Keeps p _))
          (λ valid u.
            bind-FailsHolding p n _ _ IsPrepared (prepare_destination-Yields recipe.format)
              (prepare_destination-KeepsHeld recipe.format n)
              (λ prepared is.
                FailsQuietly-FailsHolding p n _ (prepared-FailsQuietly recipe prepared is)))
