-- ===== src/Flags/Sqlite/Transaction.antt =====
-- What the transaction of `Publish` of internal/store/sqlite/sqlite.go has done when it is committed.
use saas_reaper.Base.{
  ℕ, String, ◌≡◌, refl, sym, ap, ◌∙◌, Option, none, some, List, [], ◌∷◌, ◌++◌, ◌==◌, ◌&&◌,
  if◌then◌else◌, suc, length, ok, bind-then, unit-then, guard-then,
}
use saas_reaper.Base.Int64.{ℤ, pos, inc, eqb_ℤ, eqb_ℤ_iff}
use saas_reaper.Base.Durable.{Plan, exec, within, within-ok}
use saas_reaper.Flags.Flag.{Error, conflict, other, Flag, copy}
use saas_reaper.Flags.Flag.Copy.{copy-copy}
use saas_reaper.Flags.Authority.{next_revision}
use saas_reaper.Flags.Sqlite.{
  Codec, Row, AuditRow, Tables, select, expect, encoded, written, publishing, entries,
}
use saas_reaper.Flags.Sqlite.Rows.{IsRow, select-upsert}

-- The definition that a publish writes, before it is copied.
abbrev pub numbered : ℕ → Flag → ℤ → Flag
numbered now flag expected = record flag { revision = inc expected; updated_at = now }

module _ (codec : Codec) where
  open codec use {Blob, marshal, unmarshal, unmarshal-marshal}

  -- The revision of a row, 0 of one that is not there.
  abbrev pub row_revision : Option (Row codec) → ℤ
  row_revision none = pos 0
  row_revision (some row) = row.revision

  expect-ok :
      (expected : ℤ) (o : Option (Row codec)) (current : ℤ)
      → expect codec expected o ≡ ok current
      → (row_revision o ≡ expected) × (current ≡ expected)
  unfolding expect
  expect-ok expected none current h =
      let (e, x) = guard-then (eqb_ℤ expected (pos 0)) conflict _ _ h in
      let same = (eqb_ℤ_iff expected (pos 0)).0 e in (sym same, cc)
  expect-ok expected (some row) current h =
      let (e, x) = guard-then (eqb_ℤ row.revision expected) conflict _ _ h in
      let same = (eqb_ℤ_iff row.revision expected).0 e in (same, cc)

  encoded-ok :
      (o : Option Blob) (definition : Blob) → encoded codec o ≡ ok definition → o ≡ some definition
  unfolding encoded
  encoded-ok none definition h = cc
  encoded-ok (some b) definition h = cc

  -- What a committed publish found and wrote.
  pub record Committed (now : ℕ) (environment : String) (flag : Flag) (expected : ℤ)
      (actor : String) (t : Tables codec) (g : Flag) (after : Tables codec) : Type 0 where
    pub definition : Blob
    pub current : row_revision (select codec environment flag.key t.flags) ≡ expected
    pub encodes : marshal (numbered now flag expected) ≡ some definition
    pub result : g ≡ next_revision now flag expected
    pub wrote : after ≡ written codec environment (numbered now flag expected) actor definition t

  -- A publish that the tables show: the row at its environment and key, which had the expected
  -- revision, has the next definition, the other rows are as they were, and the log has one row more.
  pub record IsPublished (now : ℕ) (environment : String) (flag : Flag) (expected : ℤ)
      (actor : String) (before : Tables codec) (g : Flag) (after : Tables codec) : Type 0 where
    pub definition : Blob
    pub current : row_revision (select codec environment flag.key before.flags) ≡ expected
    pub result : g ≡ copy (record flag { revision = inc expected; updated_at = now })
    pub encodes :
        marshal (record flag { revision = inc expected; updated_at = now }) ≡ some definition
    pub selects :
        (e k : String)
        → select codec e k after.flags ≡ (
            if environment == e && flag.key == k
            then some (record {
              environment = environment;
              key = flag.key;
              definition = definition;
              revision = inc expected;
              updated_at = now;
            })
            else select codec e k before.flags)
    pub audits :
        after.audit
        ≡ before.audit
          ++ record {
            entry = record {
              sequence = pos (suc (length before.audit));
              environment = environment;
              key = flag.key;
              revision = inc expected;
              actor = actor;
              action = "published";
              occurred_at = now;
            };
            definition = definition;
          }
            ∷ []

  pub Committed-IsPublished :
      (now : ℕ) (environment : String) (flag : Flag) (expected : ℤ) (actor : String)
      (before : Tables codec) (g : Flag) (after : Tables codec)
      → Committed now environment flag expected actor before g after
      → IsPublished now environment flag expected actor before g after
  Committed-IsPublished now environment flag expected actor before g after c = record {
    definition = c.definition;
    current = c.current;
    result = c.result;
    encodes = c.encodes;
    selects = λ e k.
        ap (λ (t : Tables codec). select codec e k t.flags) c.wrote
        ∙ select-upsert codec e k _ before.flags;
    audits = ap (λ (t : Tables codec). t.audit) c.wrote;
  }

  module _ (plan : Plan) (now : ℕ) (environment : String) (flag : Flag) (expected : ℤ)
      (actor : String) (t : Tables codec) where
    pub publishing-Committed :
        (g : Flag) (after : Tables codec)
        → publishing codec plan now environment flag expected actor t ≡ ok (g, after)
        → Committed now environment flag expected actor t g after
    unfolding publishing
    publishing-Committed g after h =
        let (a, h1) = unit-then (exec (other, t) plan 0) _ _ h in
        let (b, h2) = unit-then (exec (other, t) plan 1) _ _ h1 in
        let (current, e, h3) = bind-then (within t (expect codec expected _)) _ _ h2 in
        let (found, same) = expect-ok expected _ current (within-ok t _ current e) in
        let (definition, d, h4) = bind-then (within t (encoded codec _)) _ _ h3 in
        let (x, h5) = unit-then (exec (other, t) plan 2) _ _ h4 in
        let (y, h6) = unit-then (exec {E = Error × Tables codec} _ plan 3) _ _ h5 in
        let (z, h7) = unit-then (exec {E = Error × Tables codec} _ plan 4) _ _ h6 in
        record {
          definition = definition;
          current = found;
          encodes =
              ap (λ c. marshal (numbered now flag c)) (sym same)
              ∙ encoded-ok _ definition (within-ok t _ definition d);
          result = let w = ap (λ c. copy (numbered now flag c)) same in cc;
          wrote =
              let w =
                ap (λ c. written codec environment (numbered now flag c) actor definition t) same in
              cc;
        }

  -- The row that is written holds the result of the publish.
  pub written-IsRow :
      (now : ℕ) (environment : String) (flag : Flag) (expected : ℤ) (actor : String)
      (definition : Blob)
      → marshal (numbered now flag expected) ≡ some definition
      → IsRow codec (record {
        environment = environment;
        key = flag.key;
        definition = definition;
        revision = inc expected;
        updated_at = now;
      })
  unfolding copy
  written-IsRow now environment flag expected actor definition h = record {
    flag = next_revision now flag expected;
    decoded = unmarshal-marshal (numbered now flag expected) definition h;
    keyed = refl;
    revised = refl;
    copied = copy-copy (numbered now flag expected);
  }

  pub entries-append :
      (rows : List (AuditRow codec)) (row : AuditRow codec)
      → entries codec (rows ++ row ∷ []) ≡ entries codec rows ++ row.entry ∷ []
  unfolding entries
  entries-append [] row = refl
  entries-append (r ∷ rows) row = ap (λ xs. r.entry ∷ xs) (entries-append rows row)
