-- ===== src/Factory/Render.antt =====
-- internal/factory/render.go: the pure part of rendering a repository, which is what templates are
-- given, the name of a template's output, and the links to skills. The embedded files, the template
-- engine, the encoders of YAML and JSON, SHA-256 and `filepath` are parameters.
use Prim.Native.String
use saas_reaper.Base.{
  ℕ, zero, suc, ◌-◌, String, Bool, true, false, Option, none, some, List, [], ◌∷◌, map, ◌==◌,
  if◌then◌else◌, is_some, Result, ok, err, ◌>>=◌,
}
use saas_reaper.Base.Map.{Map, insert}
use saas_reaper.Base.Text.{after_prefix}
use saas_reaper.Base.Sort.{sort_by_key}
use saas_reaper.Factory.Catalog.{Pack, find_language, find_database, find_deployment, find_delivery}
use saas_reaper.Factory.Validate.{Recipe}
use saas_reaper.Factory.Disk.{Tree, Failure, unencoded_recipe, unencoded_attribute}

abbrev pub factory_version : String
factory_version = "0.8.1"

pub record RenderData : Type 0 where
  pub recipe : Recipe
  pub factory_version : String
  pub recipe_digest : String
  pub attributes : String
  pub attribute_literals : List String
  pub module_name : String
  pub policy_path : String
  pub proof_path : String
  pub language_version : String
  pub database_version : String
  pub deployment_version : String
  pub delivery_version : String

-- `template_files` are the embedded files, path and body, in the order in which WalkDir visits them.
-- `execute` gives what is written, and whether the template was rendered to its end. `folders_of` is a
-- directory's path after those of the directories that it is in, the outermost first.
pub record Toolkit : Type 1 where
  pub Template : Type 0
  pub template_files : Map String
  pub parse : String → String → Option Template
  pub execute : Template → RenderData → String × Bool
  pub marshal_recipe : Recipe → Option String
  pub marshal_text : String → Option String
  pub sha256_hex : String → String
  pub absolute_path : String → Option String
  pub parent_of : String → String
  pub folders_of : String → List String

-- strings.ReplaceAll; the characters of an occurrence that are still to be passed over are counted.
abbrev replaced : String → String → ℕ → String → String
replaced old new n String.[] = ""
replaced old new (suc n) (String.◌∷◌ c s) = replaced old new n s
replaced old new zero (String.◌∷◌ c s) =
    if is_some (after_prefix (String.◌∷◌ c s) old)
    then String.◌++◌ new (replaced old new (String.len old - 1) s)
    else String.◌∷◌ c (replaced old new zero s)

abbrev pub replace_all : String → String → String → String
replace_all s old new = replaced old new 0 s

abbrev or_same : String → Option String → String
or_same s none = s
or_same s (some t) = t

abbrev pub trim_prefix : String → String → String
trim_prefix s prefix = or_same s (after_prefix s prefix)

abbrev pub trim_suffix : String → String → String
trim_suffix String.[] suffix = ""
trim_suffix (String.◌∷◌ c s) suffix =
    if String.◌∷◌ c s == suffix then "" else String.◌∷◌ c (trim_suffix s suffix)

abbrev pub join : String → List String → String
join separator [] = ""
join separator (s ∷ []) = s
join separator (s ∷ t ∷ rest) = String.◌++◌ s (String.◌++◌ separator (join separator (t ∷ rest)))

abbrev or_empty_text : Option String → String
or_empty_text none = ""
or_empty_text (some s) = s

abbrev policy_path : String → String
policy_path language =
    if language == "go"
    then "internal/flags/"
    else if language == "typescript"
    then "src/flags/"
    else if language == "python"
    then "reaper_flags/flags/"
    else ""

abbrev proof_path : String → String
proof_path language =
    if language == "go"
    then "internal/flags/evaluate_test.go"
    else if language == "typescript"
    then "src/flags/evaluate.test.ts"
    else if language == "python"
    then "tests/test_evaluate.py"
    else ""

-- The version of the pack that was found, or the zero value.
abbrev version_in : {A : Type 0} → (A → Pack) → Option A → String
version_in pack_of none = ""
version_in pack_of (some registered) = (pack_of registered).version

abbrev encoded : {A : Type 0} → Option A → Failure → Result Failure A
encoded none e = err e
encoded (some a) e = ok a

abbrev pub output_name : String → String → String
output_name layer path =
    let relative = trim_prefix path (String.◌++◌ layer "/") in
    let relative = if relative == "gitignore.tmpl" then ".gitignore.tmpl" else relative in
    let relative = replace_all relative "/init.py.tmpl" "/__init__.py.tmpl" in
    let relative = replace_all relative "/main.py.tmpl" "/__main__.py.tmpl" in
    trim_suffix relative ".tmpl"

-- The directory that a path under a directory begins with.
abbrev pub first_folder : String → Option String
first_folder String.[] = none
first_folder (String.◌∷◌ c s) =
    if String.◌∷◌ c "" == "/"
    then some ""
    else elim (first_folder s) [ none ↦ none | some rest ↦ some (String.◌∷◌ c rest) ]

abbrev pub add_folder : Option String → Map (Unit {0}) → Map (Unit {0})
add_folder none names = names
add_folder (some name) names = insert name tt names

abbrev pub skill_folders : Tree → Map (Unit {0})
skill_folders [] = []
skill_folders ((path, entry) ∷ tree) = elim (after_prefix path "skills/") [
  | none ↦ skill_folders tree
  | some rest ↦ add_folder (first_folder rest) (skill_folders tree)
]

abbrev pub names_of : Map (Unit {0}) → List String
names_of names = map (λ entry. entry.0) names

abbrev pub has_skills : Tree → Bool
has_skills [] = false
has_skills ((path, entry) ∷ tree) =
    if is_some (after_prefix path "skills/") then true else has_skills tree

-- The directories in `skills`, in the order of os.ReadDir; `none` if there is no `skills`.
unfoldable pub skills_in : Tree → Option (List String)
unfolding sort_by_key
skills_in tree =
    if has_skills tree
    then some (sort_by_key (λ name. name) (names_of (skill_folders tree)))
    else none

abbrev pub layers_of : Recipe → List String
layers_of recipe =
    "templates/common"
    ∷ String.◌++◌ "templates/languages/" (String.◌++◌ recipe.language "/base")
    ∷ String.◌++◌ "templates/languages/"
        (String.◌++◌ recipe.language (String.◌++◌ "/" recipe.authority))
    ∷ String.◌++◌ "templates/deployments/" recipe.target
    ∷ []

-- The embedded files below a directory.
abbrev pub files_in : String → Map String → Map String
files_in layer [] = []
files_in layer ((path, body) ∷ files) =
    if is_some (after_prefix path (String.◌++◌ layer "/"))
    then (path, body) ∷ files_in layer files
    else files_in layer files

module _ (toolkit : Toolkit) where
  open toolkit use {marshal_recipe, marshal_text, sha256_hex}

  abbrev pub encode_recipe : Recipe → Result Failure String
  encode_recipe recipe = encoded (marshal_recipe recipe) unencoded_recipe

  abbrev quote_all : List String → Result Failure (List String)
  quote_all [] = ok []
  quote_all (attribute ∷ attributes) = do
    literal ← encoded (marshal_text attribute) unencoded_attribute
    literals ← quote_all attributes
    ok (literal ∷ literals)

  unfoldable pub new_render_data : Recipe → Result Failure RenderData
  new_render_data recipe = do
    recipe_data ← encode_recipe recipe
    quoted ← quote_all recipe.targeting_attributes
    ok record {
      recipe = recipe;
      factory_version = factory_version;
      recipe_digest = String.◌++◌ "sha256:" (sha256_hex recipe_data);
      attributes = join ", " quoted;
      attribute_literals = quoted;
      module_name = replace_all recipe.name "-" "_";
      policy_path = policy_path recipe.language;
      proof_path = proof_path recipe.language;
      language_version = version_in (λ p. p) (find_language recipe.language);
      database_version = version_in (λ d. d.pack) (find_database recipe.authority);
      deployment_version = version_in (λ d. d.pack) (find_deployment recipe.target);
      delivery_version = version_in (λ d. d.pack) (find_delivery recipe.format);
    }
