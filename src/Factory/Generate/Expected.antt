-- ===== src/Factory/Generate/Expected.antt =====
-- internal/factory/render.go: the repository of a recipe, as a tree, with no files and no failures.
use saas_reaper.Base.{String, Option, none, some, List, [], ◌∷◌, ◌++◌, Result, ok, err}
use saas_reaper.Base.Map.{Map, insert}
use saas_reaper.Factory.Validate.{Recipe}
use saas_reaper.Factory.Disk.{Tree, file, symlink, Failure, unread_skills}
use saas_reaper.Factory.Render.{
  Toolkit, RenderData, new_render_data, encode_recipe, output_name, skills_in, layers_of, files_in,
}
use saas_reaper.Base.{◌>>=◌, ◌>>◌}
use saas_reaper.Factory.Write.{parsed, all_rendered, skill_link, skill_target, walked, platforms}

-- The links of skills, two for each.
abbrev pub links_to : String → List String → Tree
links_to name [] = []
links_to name (platform ∷ platforms) =
    (skill_link platform name, symlink (skill_target name)) ∷ links_to name platforms

abbrev pub links_of : List String → Tree
links_of [] = []
links_of (name ∷ names) = links_to name platforms ++ links_of names

abbrev pub skills_read : Option (List String) → Result Failure (List String)
skills_read none = err unread_skills
skills_read (some names) = ok names

module _ (toolkit : Toolkit) where
  open toolkit use {template_files, execute}

  module _ (values : RenderData) where
    -- The outputs of a layer's templates, in order.
    abbrev pub outputs_of : String → Map String → Result Failure Tree
    outputs_of layer [] = ok []
    outputs_of layer ((source, body) ∷ files) = do
      template ← parsed toolkit source body
      all_rendered (execute template values).1
      outputs ← outputs_of layer files
      ok ((output_name layer source, file (execute template values).0) ∷ outputs)

    abbrev pub layer_outputs : List String → Result Failure Tree
    layer_outputs [] = ok []
    layer_outputs (layer ∷ layers) = do
      walked (files_in layer template_files)
      outputs ← outputs_of layer (files_in layer template_files)
      rest ← layer_outputs layers
      ok (outputs ++ rest)

  -- Every template of the four layers, the links to the skills among them, and the recipe.
  unfoldable pub repository_of : Recipe → Result Failure Tree
  repository_of recipe = do
    values ← new_render_data toolkit recipe
    outputs ← layer_outputs values (layers_of recipe)
    names ← skills_read (skills_in outputs)
    recipe_data ← encode_recipe toolkit recipe
    ok (insert "REAPER.yaml" (file recipe_data) (outputs ++ links_of names))
