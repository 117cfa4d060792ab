-- ===== src/Factory/Write.antt =====
-- internal/factory/render.go: writing the rendered repository into the staging directory.
use Prim.Native.String
use saas_reaper.Base.{
  String, Bool, true, false, Option, none, some, List, [], ◌∷◌, if◌then◌else◌, Result, ok, err,
}
use saas_reaper.Base.Map.{Map, lookup, insert, has}
use saas_reaper.Factory.Validate.{Recipe}
use saas_reaper.Factory.Disk.{
  Entry, file, symlink, Tree, Node, directory, Failure, unread_template, unparsed_template,
  no_output_parent, output_collision, uninspected_output, uncreated_output, unrendered_output,
  unclosed_output, unread_skills, no_skill_projection, unlinked_skill, unwritten_recipe, Files,
  call, lift, try, ◌>>=◌, ◌>>◌, Status, found, missing, unreadable, stat, under, look, mkdir_within,
  close,
}
use saas_reaper.Factory.Render.{
  Toolkit, RenderData, new_render_data, encode_recipe, output_name, skills_in, layers_of, files_in,
}

-- os.Create and os.WriteFile, which write over a file that is there.
abbrev pub write : String → Entry → Tree → Option (Unit {0} × Tree)
write path entry tree = some (tt, insert path entry tree)

-- os.Symlink, which does not.
abbrev pub symlink_at : String → String → Tree → Option (Unit {0} × Tree)
symlink_at path target tree =
    if has path tree then none else some (tt, insert path (symlink target) tree)

abbrev has_entry : String → Option Node → Bool
has_entry path (some (directory tree)) = has path tree
has_entry path _ = false

unfoldable pub entry_exists : String → String → Map Node → Bool
entry_exists root path nodes = has_entry path (lookup root nodes)

abbrev pub expect_missing : Status → Failure → Failure → Files (Unit {0})
expect_missing found exists uninspected = lift (err exists)
expect_missing missing exists uninspected = lift (ok tt)
expect_missing unreadable exists uninspected = lift (err uninspected)

-- Whether the template was rendered to its end.
abbrev pub all_rendered : Bool → Result Failure (Unit {0})
all_rendered true = ok tt
all_rendered false = err unrendered_output

abbrev pub skill_folder : String → String → String
skill_folder platform name = String.◌++◌ platform (String.◌++◌ "/skills/" name)

abbrev pub skill_link : String → String → String
skill_link platform name = String.◌++◌ (skill_folder platform name) "/SKILL.md"

abbrev pub skill_target : String → String
skill_target name = String.◌++◌ "../../../skills/" (String.◌++◌ name "/SKILL.md")

-- A directory that is not there cannot be walked.
abbrev pub walked : List (String × String) → Result Failure (Unit {0})
walked [] = err unread_template
walked (f ∷ files) = ok tt

module _ (toolkit : Toolkit) where
  open toolkit use {Template, template_files, parse, execute}

  abbrev pub parsed : String → String → Result Failure Template
  parsed source body = elim (parse source body) [ none ↦ err unparsed_template | some t ↦ ok t ]

  -- The file is closed before the outcome of the template is looked at.
  unfoldable pub render_file : String → String → String → String → RenderData → Files (Unit {0})
  render_file staging source body path values = do
    template ← lift (parsed source body)
    call mkdir_within no_output_parent
    status ← stat (entry_exists staging path)
    expect_missing status output_collision uninspected_output
    call (under staging (write path (file ""))) uncreated_output
    executed ← try (do
      call (under staging (write path (file (execute template values).0))) unrendered_output
      lift (all_rendered (execute template values).1))
    closed ← try (call close unclosed_output)
    lift executed
    lift closed

  abbrev pub render_files : String → String → RenderData → Map String → Files (Unit {0})
  render_files staging layer values [] = lift (ok tt)
  render_files staging layer values ((source, body) ∷ files) = do
    render_file staging source body (output_name layer source) values
    render_files staging layer values files

  unfoldable pub render_layer : String → String → RenderData → Files (Unit {0})
  render_layer staging layer values = do
    lift (walked (files_in layer template_files))
    render_files staging layer values (files_in layer template_files)

  abbrev pub render_layers : String → RenderData → List String → Files (Unit {0})
  render_layers staging values [] = lift (ok tt)
  render_layers staging values (layer ∷ layers) = do
    render_layer staging layer values
    render_layers staging values layers

-- For each platform a directory and the link in it.
abbrev pub link_skill : String → String → List String → Files (Unit {0})
link_skill root name [] = lift (ok tt)
link_skill root name (platform ∷ platforms) = do
  call mkdir_within no_skill_projection
  call (under root (symlink_at (skill_link platform name) (skill_target name))) unlinked_skill
  link_skill root name platforms

abbrev pub platforms : List String
platforms = ".agents" ∷ ".claude" ∷ []

abbrev pub link_skills : String → List String → Files (Unit {0})
link_skills root [] = lift (ok tt)
link_skills root (name ∷ names) = do link_skill root name platforms; link_skills root names

unfoldable pub project_skills : String → Files (Unit {0})
project_skills root = do names ← call (look root skills_in) unread_skills; link_skills root names

module _ (toolkit : Toolkit) where
  unfoldable pub render_repository : String → Recipe → Files (Unit {0})
  render_repository staging recipe = do
    values ← lift (new_render_data toolkit recipe)
    render_layers toolkit staging values (layers_of recipe)
    project_skills staging
    recipe_data ← lift (encode_recipe toolkit recipe)
    call (under staging (write "REAPER.yaml" (file recipe_data))) unwritten_recipe
