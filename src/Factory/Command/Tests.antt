-- ===== src/Factory/Command/Tests.antt =====
-- The theorems of the command at concrete inputs.
use saas_reaper.Base.{String, Option, none, some, List, [], ◌∷◌, ◌≡◌, ◌==◌, ok, if◌then◌else◌}
use saas_reaper.Base.Int64.{ℤ, pos}
use saas_reaper.Factory.Validate.{Recipe}
use saas_reaper.Factory.Command.{Line, line, compose}
use saas_reaper.Factory.Command.Composed.{IsComposable, compose-IsComposable}

abbrev as_entered : String → String
as_entered text = text

abbrev digit : String → Option ℤ
digit text = if text == "2" then some (pos 2) else if text == "9" then some (pos 9) else none

-- A name, TypeScript, a wrong number and then PostgreSQL, and the defaults from there on.
abbrev entered : List Line
entered = line "checkout" ∷ line "2" ∷ line "9" ∷ line "2" ∷ line "" ∷ []

compose-IsComposable_example :
    (recipe : Recipe) × (((compose as_entered digit entered).0 ≡ ok recipe) × IsComposable recipe)
compose-IsComposable_example = compose-IsComposable as_entered digit entered tt
