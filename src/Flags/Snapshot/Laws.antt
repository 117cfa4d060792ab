-- ===== src/Flags/Snapshot/Laws.antt =====
-- What the projection shows after a write.
use saas_reaper.Base.{String, ◌≡◌, ◌&&◌, Option, none, some, arith, ◌==◌, eq_iff, if◌then◌else◌}
use saas_reaper.Base.Map.{Map, lookup, lookup-insert, nested, nested-insert}
use saas_reaper.Base.Int64.{leb_ℤ}
use saas_reaper.Flags.Flag.{Flag, copy}
use saas_reaper.Flags.Snapshot.{Snapshot, put_current, put, shown}

-- What a key shows after a put: the newer of the two, and the old one if neither is newer.
abbrev pub newer : Option Flag → Flag → Option Flag
newer none flag = some (copy flag)
newer (some previous) flag =
    if leb_ℤ flag.revision previous.revision then some previous else some (copy flag)

put_current_lem :
    (current : Map Flag) (flag : Flag) (k : String)
    → lookup k (put_current current flag)
      ≡ (if flag.key == k then newer (lookup flag.key current) flag else lookup k current)
unfolding put_current
put_current_lem current flag k =
    ground (arith, lookup-insert flag.key k (copy flag) current, eq_iff flag.key k)

pub shown-put :
    (m : Snapshot) (environment : String) (flag : Flag) (e k : String)
    → shown (put environment flag m) e k ≡ (
        if environment == e && flag.key == k
        then newer (shown m environment flag.key) flag
        else shown m e k)
unfolding put shown
shown-put m environment flag e k = ground (
  arith,
  nested-insert environment e (put_current (nested environment m.flags) flag) m.flags,
  put_current_lem (nested environment m.flags) flag k,
  eq_iff environment e,
)
