-- ===== src/Factory/Command.antt =====
-- cmd/reaper/main.go: the command, of which the interactive configurator composes a recipe from the
-- lines of its input. What is printed is left out. `strings.TrimSpace`, `strconv.Atoi`,
-- `filepath.Join` and the readers of flags and recipes are parameters.
pub mod Asked
pub mod Composed
mod Tests
use saas_reaper.Base.{
  ℕ, zero, suc, ◌-◌, String, Bool, true, false, ◌&&◌, Option, none, some, List, [], ◌∷◌, ◌==◌, ltb,
  leb, length, if◌then◌else◌, Result, ok, err,
}
use saas_reaper.Base.Int64.{ℤ, pos, negsuc}
use saas_reaper.Factory.Catalog.{Choice, product_catalog, compatible_deployments, default_replicas}
use saas_reaper.Factory.Validate.{Recipe, default_recipe}
use saas_reaper.Factory.Disk.{Disk, Failure}
use saas_reaper.Factory.Render.{Toolkit}
use saas_reaper.Factory.Generate.{Artifacts, generate}

-- The first argument.
pub data Command : Type 0 where
  show_usage show_catalog : Command
  generating composing serving : List String → Command

pub data Trouble : Type 0 where
  unknown_command unreadable_input no_such_choice no_recipe no_destination : Trouble
  unread_recipe : Trouble
  not_generated : Failure → Trouble

unfoldable pub run : List String → Result Trouble Command
run [] = ok show_usage
run (name ∷ arguments) =
    if name == "catalog"
    then ok show_catalog
    else if name == "generate"
    then ok (generating arguments)
    else if name == "new"
    then ok (composing arguments)
    else if name == "serve"
    then ok (serving arguments)
    else if name == "help"
    then ok show_usage
    else if name == "-h"
    then ok show_usage
    else if name == "--help"
    then ok show_usage
    else err unknown_command

-- A line of the input, or a read that fails; after the last one the input is at its end, where
-- ReadString gives the empty text.
pub data Line : Type 0 where
  line : String → Line
  failing : Line

abbrev pub Ask : Type 0 → Type 0
Ask A = List Line → Result Trouble A × List Line

module _ {A B : Type 0} where
  abbrev pub asked : (A → Ask B) → Result Trouble A × List Line → Result Trouble B × List Line
  asked f (ok a, lines) = f a lines
  asked f (err e, lines) = (err e, lines)

  infixl 5 ◌>>=◌
  unfoldable pub ◌>>=◌ : Ask A → (A → Ask B) → Ask B
  (m >>= f) lines = asked f (m lines)

unfoldable pub answer : {A : Type 0} → A → Ask A
answer a lines = (ok a, lines)

-- choices[n]; out of range is a panic.
abbrev pub choice_at : ℕ → List Choice → Result Trouble String
choice_at n [] = err no_such_choice
choice_at zero (choice ∷ choices) = ok choice.value
choice_at (suc n) (choice ∷ choices) = choice_at n choices

-- The last choice of the fallback's value, or the first choice.
abbrev pub default_index : ℕ → ℕ → String → List Choice → ℕ
default_index index found fallback [] = found
default_index index found fallback (choice ∷ choices) =
    default_index (suc index) (if choice.value == fallback then index else found) fallback choices

-- A number from 1 up to the number of choices.
abbrev pub selected : List Choice → Option ℤ → Option ℕ
selected choices none = none
selected choices (some (negsuc n)) = none
selected choices (some (pos n)) = if ltb 0 n && leb n (length choices) then some (n - 1) else none

abbrev pub positive : Option ℤ → Option ℤ
positive none = none
positive (some (negsuc n)) = none
positive (some (pos n)) = if ltb 0 n then some (pos n) else none

-- The answer, or asking again.
abbrev pub or_again :
    {A B : Type 0}
    → Option A
    → (A → Result Trouble B)
    → List Line
    → Result Trouble B × List Line
    → Result Trouble B × List Line
or_again none f lines again = again
or_again (some a) f lines again = (f a, lines)

module _ (trim : String → String) (atoi : String → Option ℤ) where
  unfoldable pub ask_text : String → Ask String
  ask_text fallback [] = (ok fallback, [])
  ask_text fallback (failing ∷ lines) = (err unreadable_input, lines)
  ask_text fallback (line text ∷ lines) =
      (ok (if trim text == "" then fallback else trim text), lines)

  unfoldable pub ask_choice : List Choice → String → Ask String
  ask_choice choices fallback [] = (choice_at (default_index 0 0 fallback choices) choices, [])
  ask_choice choices fallback (failing ∷ lines) = (err unreadable_input, lines)
  ask_choice choices fallback (line text ∷ lines) =
      let again = ask_choice choices fallback lines in
      if trim text == ""
      then (choice_at (default_index 0 0 fallback choices) choices, lines)
      else or_again (selected choices (atoi (trim text))) (λ n. choice_at n choices) lines again

  unfoldable pub ask_number : ℤ → Ask ℤ
  ask_number fallback [] = (ok fallback, [])
  ask_number fallback (failing ∷ lines) = (err unreadable_input, lines)
  ask_number fallback (line text ∷ lines) =
      let again = ask_number fallback lines in
      if trim text == ""
      then (ok fallback, lines)
      else or_again (positive (atoi (trim text))) ok lines again

  -- deployments[0].Value
  abbrev pub first_value : List Choice → Result Trouble String
  first_value choices = choice_at 0 choices

  abbrev pub reading : {A : Type 0} → Result Trouble A → Ask A
  reading r lines = (r, lines)

  -- configure, up to Generate
  unfoldable pub compose : Ask Recipe
  compose = do
    name ← ask_text default_recipe.name
    language ← ask_choice product_catalog.languages default_recipe.language
    authority ← ask_choice product_catalog.databases default_recipe.authority
    first ← reading (first_value (compatible_deployments authority))
    target ← ask_choice (compatible_deployments authority) first
    replicas ← ask_number (default_replicas target)
    format ← ask_choice product_catalog.deliveries default_recipe.format
    answer (record default_recipe {
      name = name;
      language = language;
      authority = authority;
      target = target;
      replicas = replicas;
      format = format;
    })

abbrev pub generated : Result Failure Artifacts × Disk → Result Trouble Artifacts × Disk
generated (ok artifacts, d) = (ok artifacts, d)
generated (err e, d) = (err (not_generated e), d)

module _ (toolkit : Toolkit) (join_path : String → String → String) where
  abbrev pub composed : String → Result Trouble Recipe → Disk → Result Trouble Artifacts × Disk
  composed destination (err e) d = (err e, d)
  composed destination (ok recipe) d =
      let selected = if destination == "" then join_path "." recipe.name else destination in
      generated (generate toolkit recipe selected d)

  -- `destination` is the flag --out.
  unfoldable pub configure :
      (String → String)
      → (String → Option ℤ)
      → String
      → List Line
      → Disk
      → Result Trouble Artifacts × Disk
  configure trim atoi destination lines d = composed destination (compose trim atoi lines).0 d

  abbrev pub read_and_generate : Option Recipe → String → Disk → Result Trouble Artifacts × Disk
  read_and_generate none destination d = (err unread_recipe, d)
  read_and_generate (some recipe) destination d = generated (generate toolkit recipe destination d)

  -- generate, of the flags --recipe and --out
  unfoldable pub generate_file :
      (String → Option Recipe) → String → String → Disk → Result Trouble Artifacts × Disk
  generate_file read_recipe recipe_path destination d =
      if recipe_path == ""
      then (err no_recipe, d)
      else if destination == ""
      then (err no_destination, d)
      else read_and_generate (read_recipe recipe_path) destination d
