-- ===== src/Factory/Generate/Tests.antt =====
-- The theorems of Generate at concrete inputs.
use Prim.Native.String
use saas_reaper.Base.{
  String, Bool, true, false, Option, none, some, List, [], ◌∷◌, ◌≡◌, ◌≢◌, ◌⊎◌, refl, ok, err, ◌==◌,
}
use saas_reaper.Base.Map.{lookup, has, insert, delete}
use saas_reaper.Base.Sort.{insert_by, sort_by, sort_by_key}
use saas_reaper.Base
use saas_reaper.Factory.Validate.{
  Recipe, validate_recipe, validate_identity, validate_selections, validate_deployment,
  validate_deployment_name, validate_attributes,
}
use saas_reaper.Factory.Catalog.{
  DeliveryPack, directory_publisher, new_pack, find_database, find_delivery, find_deployment,
  find_language, supports_database,
}
use saas_reaper.Factory.Write.{
  render_repository, render_layer, render_file, entry_exists, project_skills,
}
use saas_reaper.Factory.Disk.{
  make_folder, ◌>>=◌, lift, stat, turn, call, make_temp, finally, under, try, look, hard_link,
  remove, rename, Disk, directory, other_file, output_exists,
}
use saas_reaper.Factory.Disk.Unmoved.{IsUnmoved}
use saas_reaper.Factory.Render.{Toolkit, RenderData, new_render_data, skills_in}
use saas_reaper.Factory.Generate.{
  Artifacts, generate, prepare_destination, publish_repository, publish_directory,
  publish_directory_and_zip, publish_zip, write_archive, copy_in,
}
use saas_reaper.Factory.Generate.Atomic.{IsLasting, is_folder}
use saas_reaper.Factory.Generate.Whole.{failed_generate, outputs_were_free}

-- Templates that stand for themselves.
abbrev itself : String → String → Option String
itself source body = some body

abbrev as_it_stands : String → RenderData → String × Bool
as_it_stands template values = (template, true)

abbrev encoded_recipe : Recipe → Option String
encoded_recipe recipe = some "recipe"

abbrev toolkit : Toolkit
toolkit = record {
  Template = String;
  template_files =
      ("templates/common/gitignore.tmpl", "bin")
      ∷ ("templates/common/skills/a/SKILL.md.tmpl", "skill")
      ∷ ("templates/deployments/docker/Dockerfile.tmpl", "FROM")
      ∷ ("templates/languages/go/base/main.go.tmpl", "package main")
      ∷ ("templates/languages/go/sqlite/store.go.tmpl", "package store")
      ∷ [];
  parse = itself;
  execute = as_it_stands;
  marshal_recipe = encoded_recipe;
  marshal_text = some;
  sha256_hex = λ s. "00";
  absolute_path = λ p. some (String.◌++◌ "/out/" p);
  parent_of = λ p. "/out";
  folders_of = λ p. "/" ∷ p ∷ [];
}

abbrev recipe : Recipe
recipe = record {
  schema = "reaper.dev/v0alpha2";
  name = "reaper-flags";
  capability = "feature-flags";
  language = "go";
  authority = "sqlite";
  target = "docker";
  replicas = Base.Int64.pos 1;
  format = "directory";
  tenant = "organization";
  targeting_attributes = "targetingKey" ∷ [];
}

abbrev empty_disk : Disk
empty_disk = record { nodes = []; moments = [] }

abbrev taken : Disk
taken = record { nodes = ("/out/demo", other_file "mine") ∷ []; moments = [] }

abbrev result : Artifacts
result = record { directory = "/out/demo"; archive = "" }

generated : (generate toolkit recipe "demo" empty_disk).0 ≡ ok result
unfolding ◌>>=◌ lift stat turn call make_temp finally under make_folder try look hard_link remove
    rename generate validate_recipe validate_identity validate_selections validate_deployment
    validate_deployment_name validate_attributes find_database find_delivery find_deployment
    find_language supports_database prepare_destination render_repository new_render_data
    render_layer render_file entry_exists project_skills skills_in publish_repository
    publish_directory publish_directory_and_zip publish_zip write_archive copy_in delete has insert
    lookup insert_by sort_by sort_by_key
generated = refl

refused : (generate toolkit recipe "demo" taken).0 ≡ err output_exists
unfolding generate ◌>>=◌ lift validate_recipe validate_identity validate_selections
    validate_deployment validate_deployment_name validate_attributes find_database find_delivery
    find_deployment find_language supports_database prepare_destination stat turn has insert lookup
refused = refl

failed_generate_example :
    IsUnmoved "/out/demo" taken (generate toolkit recipe "demo" taken).1
    ⊎ ((is_folder toolkit "/out/demo" "/out/demo" ≡ true)
        × ((lookup "/out/demo" taken.nodes ≡ none)
            ⊎ (lookup "/out/demo" (generate toolkit recipe "demo" taken).1.nodes
                ≡ lookup "/out/demo" taken.nodes)))
unfolding IsLasting
failed_generate_example =
    failed_generate toolkit recipe "demo" "/out/demo" "/out/demo" taken output_exists refl
      (refl, refl) refused (λ e. cc)

abbrev directory_delivery : DeliveryPack
directory_delivery = record {
  pack = new_pack "directory" "Directory" "Generate an editable repository directory" "v1";
  artifacts = record { directory = true; archive_suffix = "" };
  publish = directory_publisher;
}

outputs_were_free_example : lookup "/out/demo" empty_disk.nodes ≡ none
unfolding find_delivery
outputs_were_free_example =
    outputs_were_free toolkit recipe "demo" "/out/demo" "/out/demo" directory_delivery empty_disk
      result refl refl refl generated
