-- ===== src/Flags/Sqlite/Refinement.antt =====
-- The in-process authority (internal/store/memory) as the specification of the durable one
-- (internal/store/sqlite): what is published to both, while no statement fails.
use saas_reaper.Base.{
  ℕ, suc, String, ◌≡◌, ◌≢◌, ◌+◌, ◌≤◌, refl, sym, ap, ◌∙◌, inl, inr, ◌&&◌, Option, none, some, List,
  [], ◌∷◌, ◌++◌, ◌==◌, length, length-append, if◌then◌else◌, Bool-cases, All, arith, Result, ok,
  err,
}
use saas_reaper.Base.Int64.{ℤ, pos, inc, max_int64, eqb_ℤ, eqb_ℤ_iff}
use saas_reaper.Base.Durable.{exec, ended}
use saas_reaper.Flags.Flag.{Error, conflict, Flag, copy}
use saas_reaper.Flags.Authority.{revision_of, next_revision, entry_of}
use saas_reaper.Flags.Memory.{Store, record_publication}
use saas_reaper.Flags.Memory
use saas_reaper.Flags.Memory.Laws
use saas_reaper.Flags.Sqlite.{
  Codec, Row, AuditRow, Database, select, expect, encoded, written, publishing, publish, entries,
  stored,
}
use saas_reaper.Flags.Sqlite.Transaction.{row_revision, numbered, entries-append}
use saas_reaper.Flags.Sqlite.Laws.{IsDatabase, read_row-revision, law_valid, law_stored}

-- A call of `Publish`.
pub record Call : Type 0 where
  pub now : ℕ
  pub environment : String
  pub flag : Flag
  pub expected : ℤ
  pub actor : String

module _ {S : Type 0} (publish : ℕ → String → Flag → ℤ → String → S → Result Error Flag × S) where
  abbrev pub call : Call → S → Result Error Flag × S
  call c s = publish c.now c.environment c.flag c.expected c.actor s

  -- The results of calls that are made one after another, and the state after them.
  abbrev pub run : List Call → S → List (Result Error Flag) × S
  run [] s = ([], s)
  run (c ∷ cs) s = let (results, after) = run cs (call c s).1 in ((call c s).0 ∷ results, after)

module _ (codec : Codec) where
  open codec use {Blob, marshal}

  -- The definition that a call writes can be encoded.
  abbrev pub IsEncodable : Call → Type 0
  IsEncodable c =
      (definition : Blob) × (marshal (numbered c.now c.flag c.expected) ≡ some definition)

  -- A database and a store that show the same, when no statement is going to fail.
  pub record Agrees (db : Database codec) (s : Store) : Type 0 where
    pub faultless : db.plans ≡ []
    pub valid : IsDatabase codec db
    pub same : (e k : String) → stored codec db e k ≡ Memory.stored s e k
    pub logged : entries codec db.tables.audit ≡ s.audit
    pub numbered : s.sequence ≡ pos (length db.tables.audit)

  length-entries : (rows : List (AuditRow codec)) → length (entries codec rows) ≡ length rows
  unfolding entries
  length-entries [] = refl
  length-entries (row ∷ rows) = ap suc (length-entries rows)

  expect_current :
      (expected : ℤ) (o : Option (Row codec))
      → row_revision codec o ≡ expected
      → expect codec expected o ≡ ok expected
  unfolding expect
  expect_current expected none h = let e = (eqb_ℤ_iff expected (pos 0)).1 (sym h) in rw e (ap ok h)
  expect_current expected (some row) h =
      let e = (eqb_ℤ_iff row.revision expected).1 h in rw e (ap ok h)

  expect_stale :
      (expected : ℤ) (o : Option (Row codec))
      → row_revision codec o ≢ expected
      → expect codec expected o ≡ err conflict
  unfolding expect
  expect_stale expected none h = elim (Bool-cases (eqb_ℤ expected (pos 0))) [
    | inl e ↦ absurd (h (sym ((eqb_ℤ_iff expected (pos 0)).0 e)))
    | inr e ↦ rw e refl
  ]
  expect_stale expected (some row) h = elim (Bool-cases (eqb_ℤ row.revision expected)) [
    | inl e ↦ absurd (h ((eqb_ℤ_iff row.revision expected).0 e))
    | inr e ↦ rw e refl
  ]

  module _ (c : Call) (db : Database codec) (faultless : db.plans ≡ []) where
    abbrev current : ℤ
    current = row_revision codec (select codec c.environment c.flag.key db.tables.flags)

    publish_current :
        (definition : Blob)
        → marshal (numbered c.now c.flag c.expected) ≡ some definition
        → current ≡ c.expected
        → call (publish codec) c db ≡ (
          ok (next_revision c.now c.flag c.expected),
          record db {
            tables =
                written codec c.environment
                  (numbered c.now c.flag c.expected)
                  c.actor
                  definition
                  db.tables;
          },
        )
    unfolding publish publishing exec ended encoded
    publish_current definition h revision =
        rw faultless (rw (expect_current c.expected _ revision) (rw h refl))

    publish_stale : current ≢ c.expected → call (publish codec) c db ≡ (err conflict, db)
    unfolding publish publishing exec ended
    publish_stale revision = rw faultless (rw (expect_stale c.expected _ revision) refl)

  module _ (c : Call) (db : Database codec) (s : Store) (a : Agrees db s) where
    abbrev durable : Result Error Flag × Database codec
    durable = call (publish codec) c db

    abbrev specified : Result Error Flag × Store
    specified = call Memory.publish c s

    abbrev AgreesAfter : Type 0
    AgreesAfter =
        (durable.0 ≡ specified.0)
        × Agrees durable.1 specified.1
        × (length durable.1.tables.audit ≤ suc (length db.tables.audit))

    same_revision :
        revision_of (Memory.stored s c.environment c.flag.key) ≡ current c db a.faultless
    unfolding stored
    same_revision =
        ap revision_of (sym (a.same c.environment c.flag.key))
        ∙ read_row-revision codec c.environment c.flag.key db.tables.flags a.valid

    accepted :
        (definition : Blob)
        → marshal (numbered c.now c.flag c.expected) ≡ some definition
        → suc (length db.tables.audit) ≤ max_int64
        → current c db a.faultless ≡ c.expected
        → specified ≡ Laws.recorded c.now c.environment c.flag c.expected c.actor s
        → AgreesAfter
    unfolding record_publication copy inc
    accepted definition h room revision e =
        let d = publish_current c db a.faultless definition h revision in
        let g = next_revision c.now c.flag c.expected in
        let d0 : durable.0 ≡ ok g = ap (λ (p : Result Error Flag × Database codec). p.0) d in
        let e0 : specified.0 ≡ ok g = ap (λ (p : Result Error Flag × Store). p.0) e in
        let rows = db.tables.audit in
        let next : inc s.sequence ≡ pos (suc (length rows)) = ap inc a.numbered ∙ ground arith in
        let row : AuditRow codec = record {
          entry =
              entry_of (pos (suc (length rows))) c.environment (numbered c.now c.flag c.expected)
                c.actor;
          definition = definition;
        } in
        let grown : durable.1.tables.audit ≡ rows ++ row ∷ [] =
          ap (λ (p : Result Error Flag × Database codec). p.1.tables.audit) d in
        let more : length durable.1.tables.audit ≡ suc (length rows) =
          ap length grown ∙ omega (arith, length-append rows (row ∷ [])) in
        (
          d0 ∙ sym e0,
          record {
            faultless = ap (λ (p : Result Error Flag × Database codec). p.1.plans) d ∙ a.faultless;
            valid = law_valid codec c.now c.environment c.flag c.expected c.actor db a.valid;
            same = λ x k.
                law_stored codec c.now c.environment c.flag c.expected c.actor db g d0 x k
                ∙ (ap (λ o. if c.environment == x && c.flag.key == k then some g else o)
                      (a.same x k)
                    ∙ sym
                        (Laws.law_stored c.now c.environment c.flag c.expected c.actor s g e0 x k));
            logged =
                ap (entries codec) grown
                ∙ (entries-append codec rows row
                    ∙ (ap (λ xs. xs ++ row.entry ∷ []) a.logged
                        ∙ (ap
                              (λ n.
                                s.audit
                                ++ entry_of n c.environment (numbered c.now c.flag c.expected)
                                    c.actor
                                  ∷ [])
                              (sym next)
                            ∙ sym (ap (λ (p : Result Error Flag × Store). p.1.audit) e))));
            numbered =
                ap (λ (p : Result Error Flag × Store). p.1.sequence) e ∙ (next ∙ ap pos (sym more));
          },
          omega (arith, more),
        )

    refused :
        current c db a.faultless ≢ c.expected
        → specified ≡ (err conflict, Laws.made c.environment s)
        → AgreesAfter
    refused stale e =
        let d = publish_stale c db a.faultless stale in
        (
          ap (λ (p : Result Error Flag × Database codec). p.0) d
              ∙ sym (ap (λ (p : Result Error Flag × Store). p.0) e),
          rw d (
              rw e (record {
                faultless = a.faultless;
                valid = a.valid;
                same = λ x k. a.same x k ∙ sym (Laws.stored-made c.environment s x k);
                logged = a.logged;
                numbered = a.numbered;
              })),
          rw d (omega arith),
        )

    -- One publish gives the same result in both, and leaves them in agreement.
    publish-Agrees : IsEncodable c → suc (length db.tables.audit) ≤ max_int64 → AgreesAfter
    publish-Agrees (definition, h) room =
        elim (Laws.publish-cases c.now c.environment c.flag c.expected c.actor s) [
          | inl (revision, e) ↦ accepted definition h room (sym same_revision ∙ revision) e
          | inr (stale, e) ↦ refused (λ x. stale (same_revision ∙ x)) e
        ]

  -- From a valid database and a store that show the same definitions and the same log, with no
  -- statement failing, every definition encodable and the sequence numbers not running out: any
  -- publishes, made to both in the same order, have the same results and show the same afterwards.
  pub sqlite_refines_memory :
      (calls : List Call) (db : Database codec) (s : Store)
      → Agrees db s
      → All IsEncodable calls
      → length db.tables.audit + length calls ≤ max_int64
      → ((run (publish codec) calls db).0 ≡ (run Memory.publish calls s).0)
        × Agrees (run (publish codec) calls db).1 (run Memory.publish calls s).1
  sqlite_refines_memory [] db s a encodable room = (refl, a)
  sqlite_refines_memory (c ∷ calls) db s a encodable room =
      let (same, after, more) = publish-Agrees c db s a encodable.0 (omega arith) in
      let (rest, last) = sqlite_refines_memory calls _ _ after encodable.1 (omega arith) in
      (cc, last)
