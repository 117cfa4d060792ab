-- ===== src/Factory/Generate/Whole.antt =====
-- internal/factory/render.go: Generate, from the recipe to the directory at the destination.
use saas_reaper.Base.{
  String, some, none, err, ◌≢◌, ◌≡◌, ok, sym, true, ◌⊎◌, ◌∙◌, inl, inr, Bool-cases, Option-cases,
}
use saas_reaper.Base.Map.{lookup}
use saas_reaper.Factory.Validate.{Recipe}
use saas_reaper.Factory.Disk.{Failure, incomplete_archive, Disk}
use saas_reaper.Factory.Disk.Unmoved.{IsUnmoved}
use saas_reaper.Factory.Disk.Ensures.{Ensures}
use saas_reaper.Factory.Render.{Toolkit}
use saas_reaper.Factory.Generate.{paths_of, Artifacts, generate, staging_prefix}
use saas_reaper.Factory.Generate.Available.{generate-NeedsFree}
use saas_reaper.Factory.Catalog.{DeliveryPack, find_delivery, is_listed}
use saas_reaper.Factory.Generate.Atomic.{
  IsLasting, is_folder, generate-FailsQuietly, generate-FailsHolding, IsPrepared,
}
use saas_reaper.Factory.Generate.Complete.{Complete}
use saas_reaper.Factory.Generate.Moved.{Staged}
use saas_reaper.Factory.Generate.Published.{Avoids}

module _ (toolkit : Toolkit) (recipe : Recipe) (destination absolute : String)
    (resolves : toolkit.absolute_path destination ≡ some absolute)
    (away : Avoids (staging_prefix toolkit absolute) absolute) where
  abbrev Prepared : String × String → Disk → Type 0
  Prepared prepared d =
      IsPrepared toolkit destination absolute resolves prepared
      × Staged toolkit destination prepared d

-- Where Generate fails, unless it could not take an archive back, each path but those of its temporary
-- files holds what it held, or what another process put there while it was free; a directory that the
-- destination is in may also have been made where there was nothing.
pub failed_generate :
    (toolkit : Toolkit) (recipe : Recipe) (destination absolute p : String) (d : Disk) (e : Failure)
    → toolkit.absolute_path destination ≡ some absolute
    → IsLasting toolkit absolute p
    → (generate toolkit recipe destination d).0 ≡ err e
    → e ≢ incomplete_archive
    → IsUnmoved p d (generate toolkit recipe destination d).1
      ⊎ ((is_folder toolkit absolute p ≡ true)
          × ((lookup p d.nodes ≡ none)
              ⊎ (lookup p (generate toolkit recipe destination d).1.nodes ≡ lookup p d.nodes)))
failed_generate toolkit recipe destination absolute p d e resolves lasting h n =
    elim (Bool-cases (is_folder toolkit absolute p)) [
      | inr outside ↦ inl (
          generate-FailsQuietly toolkit destination absolute resolves p lasting recipe outside d e h
            n)
      | inl folder ↦ elim (Option-cases (lookup p d.nodes)) [
        | inl free ↦ inr (folder, inl free)
        | inr (node, held) ↦ inr (
          folder,
          inr (
              generate-FailsHolding toolkit destination absolute resolves p lasting recipe node d e
                held h n
              ∙ sym held),
        )
      ]
    ]

-- Where Generate succeeds, each path that the delivery format names as an output was free when it
-- began.
pub outputs_were_free :
    (toolkit : Toolkit) (recipe : Recipe) (destination absolute p : String) (pack : DeliveryPack)
    (d : Disk) (result : Artifacts)
    → toolkit.absolute_path destination ≡ some absolute
    → find_delivery recipe.format ≡ some pack
    → is_listed p (paths_of pack.artifacts absolute) ≡ true
    → (generate toolkit recipe destination d).0 ≡ ok result
    → lookup p d.nodes ≡ none
outputs_were_free toolkit recipe destination absolute p pack d result resolves known output h =
    generate-NeedsFree toolkit destination absolute resolves p recipe pack known output d result h
