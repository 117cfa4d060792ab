-- ===== src/Flags/Sqlite.antt =====
-- internal/store/sqlite/sqlite.go and audit.go: the durable authority, as tables and transactions
-- over them. encoding/json is a parameter; a time is read back from its text as it was written.
pub mod Rows
pub mod Restore
pub mod Transaction
pub mod Laws
pub mod Refinement
mod Tests
use saas_reaper.Base.{
  ℕ, suc, String, ◌≡◌, Bool, true, false, not, ◌&&◌, ◌||◌, Option, none, some, List, [], ◌∷◌, ◌++◌,
  map, reverse, take, ◌==◌, length, if◌then◌else◌, Result, ok, err, ◌>>=◌, ◌>>◌, guard,
}
use saas_reaper.Base.Map.{Map, insert}
use saas_reaper.Base.Int64.{ℤ, pos, negsuc, inc, eqb_ℤ}
use saas_reaper.Base.Sort.{less, sort_by}
use saas_reaper.Base.Durable.{Plan, Durable, first_plan, exec, within, ended}
use saas_reaper.Flags.Flag.{Error, conflict, invalid, other, Flag, AuditEntry, copy, validate}
use saas_reaper.Flags.Authority.{definitions_of, entry_of}

-- How definitions are written as JSON and read back. What is written is read back as a copy.
pub record Codec : Type 1 where
  pub Blob : Type 0
  pub marshal : Flag → Option Blob
  pub unmarshal : Blob → Option Flag
  pub unmarshal-marshal :
      (flag : Flag) (definition : Blob)
      → marshal flag ≡ some definition
      → unmarshal definition ≡ some (copy flag)

module _ (codec : Codec) where
  open codec use {Blob, marshal, unmarshal}

  pub record Row : Type 0 where
    pub environment : String
    pub key : String
    pub definition : Blob
    pub revision : ℤ
    pub updated_at : ℕ

  pub record AuditRow : Type 0 where
    pub entry : AuditEntry
    pub definition : Blob

  -- The audit rows are in the order of their sequence numbers.
  pub record Tables : Type 0 where
    pub flags : List Row
    pub audit : List AuditRow

  abbrev pub Database : Type 0
  Database = Durable Tables

  -- WHERE environment = ? AND key = ?
  abbrev pub is_at : String → String → Row → Bool
  is_at environment key row = row.environment == environment && row.key == key

  unfoldable pub select : String → String → List Row → Option Row
  select environment key [] = none
  select environment key (row ∷ rows) =
      if is_at environment key row then some row else select environment key rows

  -- The INSERT of `writeFlag`, with its ON CONFLICT.
  unfoldable pub upsert : Row → List Row → List Row
  upsert new [] = new ∷ []
  upsert new (row ∷ rows) =
      if is_at new.environment new.key row then new ∷ rows else row ∷ upsert new rows

  unmarshaled : Option Flag → Result Error Flag
  unmarshaled none = err other
  unmarshaled (some flag) = do validate flag; ok flag

  unfoldable pub decode : Blob → Result Error Flag
  unfolding unmarshaled
  decode definition = unmarshaled (unmarshal definition)

  -- The loop of `Load`.
  unfoldable pub load_rows : Map (List Flag) → List Row → Result Error (Map (List Flag))
  load_rows loaded [] = ok loaded
  load_rows loaded (row ∷ rows) = do
    flag ← decode row.definition
    let environment = row.environment
    load_rows (insert environment (definitions_of environment loaded ++ flag ∷ []) loaded) rows

  -- ORDER BY environment, key
  abbrev pub row_before : Row → Row → Bool
  row_before a b =
      less a.environment b.environment || (a.environment == b.environment && less a.key b.key)

  unfoldable pub load : Database → Result Error (Map (List Flag))
  unfolding load_rows
  load db = if db.unreadable then err other else load_rows [] (sort_by row_before db.tables.flags)

  -- The revision that is in the way of a publish is refused; the result is the current one.
  unfoldable pub expect : ℤ → Option Row → Result Error ℤ
  expect expected none = do guard (eqb_ℤ expected (pos 0)) conflict; ok (pos 0)
  expect expected (some row) = do guard (eqb_ℤ row.revision expected) conflict; ok row.revision

  unfoldable pub encoded : Option Blob → Result Error Blob
  encoded none = err other
  encoded (some definition) = ok definition

  -- writeFlag
  abbrev pub write_flag : String → Flag → Blob → Tables → Tables
  write_flag environment flag definition t = record t {
    flags =
        upsert
          (record {
            environment = environment;
            key = flag.key;
            definition = definition;
            revision = flag.revision;
            updated_at = flag.updated_at;
          })
          t.flags;
  }

  -- The sequence is that of AUTOINCREMENT in a table that no row is deleted from.
  abbrev pub write_audit : String → Flag → String → Blob → Tables → Tables
  write_audit environment flag actor definition t = record t {
    audit =
        t.audit
        ++ record {
          entry = entry_of (pos (suc (length t.audit))) environment flag actor;
          definition = definition;
        }
          ∷ [];
  }

  abbrev pub written : String → Flag → String → Blob → Tables → Tables
  written environment flag actor definition t =
      write_audit environment flag actor definition (write_flag environment flag definition t)

  -- The transaction of `Publish`: begin, select, write, the audit row, commit.
  unfoldable pub publishing :
      Plan → ℕ → String → Flag → ℤ → String → Tables → Result (Error × Tables) (Flag × Tables)
  unfolding exec
  publishing plan now environment flag expected actor t = do
    exec (other, t) plan 0
    exec (other, t) plan 1
    current ← within t (expect expected (select environment flag.key t.flags))
    let flag' = record flag { revision = inc current; updated_at = now }
    definition ← within t (encoded (marshal flag'))
    exec (other, t) plan 2
    let flagged = write_flag environment flag' definition t
    exec (other, flagged) plan 3
    let audited = write_audit environment flag' actor definition flagged
    exec (other, audited) plan 4
    ok (copy flag', audited)

  unfoldable pub publish : ℕ → String → Flag → ℤ → String → Database → Result Error Flag × Database
  unfolding ended
  publish now environment flag expected actor db =
      ended (publishing (first_plan db.plans) now environment flag expected actor db.tables) db

  unfoldable pub entries : List AuditRow → List AuditEntry
  entries [] = []
  entries (row ∷ rows) = row.entry ∷ entries rows

  -- `none` is an error, or the panic of `make` with a negative capacity.
  pub audit : ℤ → Database → Option (List AuditEntry)
  audit (pos limit) db =
      if db.unreadable then none else some (take limit (reverse (entries db.tables.audit)))
  audit (negsuc limit) db = none

  unfoldable pub read_row : Option Row → Option Flag
  read_row none = none
  read_row (some row) = unmarshal row.definition

  -- What is stored at an environment and a key.
  unfoldable pub stored : Database → String → String → Option Flag
  stored db environment key = read_row (select environment key db.tables.flags)
