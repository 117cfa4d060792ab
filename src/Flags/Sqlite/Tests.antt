-- ===== src/Flags/Sqlite/Tests.antt =====
-- The theorems of the durable authority at concrete inputs: a codec that keeps the definition itself,
-- and two publishes of a flag.
use saas_reaper.Base.{
  ◌≡◌, ◌⊎◌, refl, sym, ap, false, true, none, some, List, [], ◌∷◌, ok, err, arith,
}
use saas_reaper.Base.Map.{Map, lookup, nested, insert, has}
use saas_reaper.Base.Int64.{pos, inc}
use saas_reaper.Flags.Flag.{Error, Flag, bool, boolean, copy, validate, validate_key}
use saas_reaper.Base.Sort.{sort_by}
use saas_reaper.Flags.Memory.{new}
use saas_reaper.Flags.Memory
use saas_reaper.Flags.Snapshot.{new_memory, replace}
use saas_reaper.Flags.Service.{Service, start}
use saas_reaper.Flags.Service.Convergence.{IsSettled}
use saas_reaper.Flags.Service.Restart.{start-IsSettled}
use saas_reaper.Flags.Sqlite.{Codec, Tables, Database, publish}
use saas_reaper.Flags.Sqlite
use saas_reaper.Flags.Sqlite.Transaction.{IsPublished}
use saas_reaper.Flags.Sqlite.Laws.{IsDatabase, sqlite, publish_atomic, law_valid}
use saas_reaper.Flags.Sqlite.Refinement.{Call, run, Agrees, sqlite_refines_memory}

written_back : (f b : Flag) → some f ≡ some b → some (copy b) ≡ some (copy f)
written_back f b h = let x : f ≡ b = cc in ap (λ g. some (copy g)) (sym x)

abbrev plain : Codec
plain = record {
  Blob = Flag;
  marshal = some;
  unmarshal = λ f. some (copy f);
  unmarshal-marshal = written_back;
}

abbrev switch : Flag
switch = record {
  key = "checkout";
  kind = boolean;
  enabled = true;
  default_variant = "off";
  variants = ("off", bool false) ∷ ("on", bool true) ∷ [];
  rules = [];
  rollout = none;
  revision = pos 0;
  updated_at = 0;
}

abbrev empty : Database plain
empty = record { tables = record { flags = []; audit = [] }; plans = []; unreadable = false }

empty-IsDatabase : IsDatabase plain empty
empty-IsDatabase = record { keys = tt; each = tt }

empty-Agrees : Agrees plain empty new
unfolding Sqlite.stored Sqlite.select Sqlite.read_row Sqlite.entries Memory.stored lookup nested
empty-Agrees = record {
  faultless = refl;
  valid = empty-IsDatabase;
  same = λ e k. refl;
  logged = refl;
  numbered = refl;
}

abbrev published : Database plain
published = (publish plain 10 "prod" switch (pos 0) "ann" empty).1

publish_atomic_example :
    ((g : Flag) × ((publish plain 10 "prod" switch (pos 0) "ann" empty).0 ≡ ok g)
      × IsPublished plain 10 "prod" switch (pos 0) "ann" empty.tables g published.tables)
    ⊎ ((x : Error) × ((publish plain 10 "prod" switch (pos 0) "ann" empty).0 ≡ err x)
        × (published.tables ≡ empty.tables))
publish_atomic_example = publish_atomic plain 10 "prod" switch (pos 0) "ann" empty

abbrev two_calls : List Call
two_calls =
    record { now = 10; environment = "prod"; flag = switch; expected = pos 0; actor = "ann" }
    ∷ record { now = 20; environment = "prod"; flag = switch; expected = pos 7; actor = "bob" }
    ∷ []

sqlite_refines_memory_example :
    ((run (publish plain) two_calls empty).0 ≡ (run Memory.publish two_calls new).0)
    × Agrees plain (run (publish plain) two_calls empty).1 (run Memory.publish two_calls new).1
sqlite_refines_memory_example =
    sqlite_refines_memory plain two_calls empty new empty-Agrees ((_, refl), ((_, refl), tt))
      (omega arith)

abbrev on_disk : (sqlite plain).State
unfolding sqlite
on_disk = published

on_disk-IsValid : (sqlite plain).IsValid on_disk
unfolding sqlite
on_disk-IsValid = law_valid plain 10 "prod" switch (pos 0) "ann" empty empty-IsDatabase

abbrev loaded : Map (List Flag)
loaded = ("prod", record switch { revision = pos 1; updated_at = 10 } ∷ []) ∷ []

abbrev restarted : Service (sqlite plain)
restarted = record { store = on_disk; snapshot = replace loaded new_memory }

published_started : start (sqlite plain) on_disk new_memory ≡ ok restarted
unfolding start sqlite Sqlite.load Sqlite.publish Sqlite.decode validate validate_key copy lookup
    insert has inc Sqlite.publishing Sqlite.expect Sqlite.select Sqlite.encoded sort_by
    Sqlite.upsert
published_started = refl

start-IsSettled_example :
    ((restarted.store ≡ on_disk)
      × IsSettled
          (sqlite plain)
          (record { store = restarted.store; snapshot = restarted.snapshot; pending = [] }))
start-IsSettled_example =
    start-IsSettled (sqlite plain) on_disk new_memory restarted on_disk-IsValid published_started
