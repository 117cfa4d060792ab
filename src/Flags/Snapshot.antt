-- ===== src/Flags/Snapshot.antt =====
-- internal/snapshot/memory.go: the read projection. Each method holds the lock from beginning to
-- end, so a method is one step.
pub mod Laws
pub mod Restore
use saas_reaper.Base.{
  String, Bool, true, false, Option, none, some, List, [], ◌∷◌, map, if◌then◌else◌,
}
use saas_reaper.Base.Map.{Map, lookup, insert, values, nested}
use saas_reaper.Base.Int64.{leb_ℤ}
use saas_reaper.Base.Sort.{sort_by_key}
use saas_reaper.Flags.Flag.{Flag, copy}
use mathlib.Core.Option

pub record Snapshot : Type 0 where
  pub flags : Map (Map Flag)

abbrev pub new_memory : Snapshot
new_memory = record { flags = [] }

replace_flags : Map Flag → List Flag → Map Flag
replace_flags next [] = next
replace_flags next (flag ∷ flags) = replace_flags (insert flag.key (copy flag) next) flags

replace_environments : Map (Map Flag) → Map (List Flag) → Map (Map Flag)
unfolding replace_flags
replace_environments next [] = next
replace_environments next ((environment, flags) ∷ loaded) =
    replace_environments (insert environment (replace_flags [] flags) next) loaded

pub replace : Map (List Flag) → Snapshot → Snapshot
unfolding replace_environments
replace loaded m = record { flags = replace_environments [] loaded }

-- `exists && previous.Revision >= flag.Revision`
is_stale : Option Flag → Flag → Bool
is_stale none flag = false
is_stale (some previous) flag = leb_ℤ flag.revision previous.revision

put_current : Map Flag → Flag → Map Flag
unfolding is_stale
put_current current flag =
    if is_stale (lookup flag.key current) flag then current else insert flag.key (copy flag) current

unfoldable pub put : String → Flag → Snapshot → Snapshot
unfolding put_current nested
put environment flag m = record {
  flags = insert environment (put_current (nested environment m.flags) flag) m.flags;
}

-- The definition that is projected, before it is copied for the reader.
unfoldable pub shown : Snapshot → String → String → Option Flag
unfolding nested
shown m environment key = lookup key (nested environment m.flags)

pub get : String → String → Snapshot → Option Flag
unfolding shown
get environment key m = Option.map copy (shown m environment key)

pub list : String → Snapshot → List Flag
unfolding nested values
list environment m = sort_by_key (λ flag. flag.key) (map copy (values (nested environment m.flags)))
