-- ===== src/Flags/Sqlite/Laws.antt =====
-- The tables of internal/store/sqlite/sqlite.go keep what policy relies on.
use saas_reaper.Base.{
  ℕ, suc, String, ◌≡◌, ◌⊎◌, refl, sym, ap, ◌∙◌, inl, inr, ◌&&◌, some, List, [], ◌∷◌, ◌++◌, ◌==◌,
  length, if◌then◌else◌, Bool-cases, Option-cases, subst, Result, ok, err, Result-cases,
}
use saas_reaper.Base.Int64.{ℤ, pos, inc}
use saas_reaper.Base.Durable.{first_plan, ended, ended-ok, ended-err}
use saas_reaper.Flags.Flag.{Error, Flag, AuditEntry, copy}
use saas_reaper.Flags.Authority.{Authority, revision_of, next_revision, entry_of}
use saas_reaper.Flags.Sqlite.{
  Codec, Row, Tables, Database, is_at, select, publishing, publish, load, audit, entries, read_row,
  stored,
}
use saas_reaper.Flags.Sqlite.Rows.{IsTable, select-upsert, upsert-IsTable, select-IsRow}
use saas_reaper.Flags.Sqlite.Restore.{law_loaded, law_keyed}
use saas_reaper.Flags.Sqlite.Transaction.{
  row_revision, numbered, Committed, IsPublished, Committed-IsPublished, publishing-Committed,
  written-IsRow, entries-append,
}

module _ (codec : Codec) where
  -- Every row of the table has its own primary key and holds a definition of its key and revision.
  abbrev pub IsDatabase : Database codec → Type 0
  IsDatabase db = IsTable codec db.tables.flags

  abbrev pub log : Database codec → List AuditEntry
  log db = entries codec db.tables.audit

  pub read_row-revision :
      (e k : String) (rows : List (Row codec))
      → IsTable codec rows
      → revision_of (read_row codec (select codec e k rows))
        ≡ row_revision codec (select codec e k rows)
  unfolding read_row
  read_row-revision e k rows t = elim (Option-cases (select codec e k rows)) [
    | inl z ↦ rw z refl
    | inr (row, z) ↦
        let r = (select-IsRow codec e k rows row t.each z).0 in
        let d = r.decoded in rw (z, d) r.revised
  ]

  module _ (now : ℕ) (environment : String) (flag : Flag) (expected : ℤ) (actor : String)
      (db : Database codec) where
    abbrev outcome : Result Error Flag × Database codec
    outcome = publish codec now environment flag expected actor db

    publish-ended :
        ((g : Flag) × (outcome.0 ≡ ok g)
          × Committed codec now environment flag expected actor db.tables g outcome.1.tables)
        ⊎ ((x : Error) × (outcome.0 ≡ err x) × (outcome.1.tables ≡ db.tables))
    unfolding publish
    publish-ended =
        let work =
          publishing codec (first_plan db.plans) now environment flag expected actor db.tables in
        elim (Result-cases (ended work db).0) [
          | inl (g, e) ↦
              let (t, r, same) = ended-ok work db g e in
              inl (
                g,
                e,
                subst (Committed codec now environment flag expected actor db.tables g) (sym same) (
                    publishing-Committed codec (first_plan db.plans) now environment flag expected
                      actor db.tables g t r),
              )
          | inr (x, e) ↦ inr (x, e, ended-err work db x e)
        ]

    -- A publish, whichever statements fail, either succeeds and is committed as a whole: the row at
    -- its environment and key had the expected revision (0 if there was none), the result is the flag
    -- with the next revision, which is written at that row, every other row is as it was, and one
    -- audit row more names the environment, the key, the revision and the actor; or it fails, also
    -- after it wrote the row or the audit row, and the tables are as they were.
    pub publish_atomic :
        ((g : Flag) × (outcome.0 ≡ ok g)
          × IsPublished codec now environment flag expected actor db.tables g outcome.1.tables)
        ⊎ ((x : Error) × (outcome.0 ≡ err x) × (outcome.1.tables ≡ db.tables))
    publish_atomic = elim publish-ended [
      | inl (g, e, c) ↦
          inl
            (g, e, Committed-IsPublished codec now environment flag expected actor db.tables g _ c)
      | inr x ↦ inr x
    ]

    committed :
        (g : Flag)
        → outcome.0 ≡ ok g
        → Committed codec now environment flag expected actor db.tables g outcome.1.tables
    committed g h = elim publish-ended [
      | inl (f, e, c) ↦
          let same : f ≡ g = cc in
          subst
            (λ f. Committed codec now environment flag expected actor db.tables f outcome.1.tables)
            same c
      | inr (x, e, same) ↦ cc
    ]

    pub law_refused : (x : Error) → outcome.0 ≡ err x → outcome.1.tables ≡ db.tables
    law_refused x h = elim publish-ended [ inl (f, e, c) ↦ cc | inr (y, e, same) ↦ same ]

    pub law_refused_stored :
        (x : Error)
        → outcome.0 ≡ err x
        → (e k : String) → stored codec outcome.1 e k ≡ stored codec db e k
    unfolding stored
    law_refused_stored x h e k =
        ap (λ (t : Tables codec). read_row codec (select codec e k t.flags)) (law_refused x h)

    pub law_refused_log : (x : Error) → outcome.0 ≡ err x → log outcome.1 ≡ log db
    law_refused_log x h = ap (λ (t : Tables codec). entries codec t.audit) (law_refused x h)

    pub law_revision :
        (g : Flag)
        → IsDatabase db
        → outcome.0 ≡ ok g
        → revision_of (stored codec db environment flag.key) ≡ expected
    unfolding stored
    law_revision g v h =
        read_row-revision environment flag.key db.tables.flags v ∙ (committed g h).current

    pub law_result : (g : Flag) → outcome.0 ≡ ok g → g ≡ next_revision now flag expected
    law_result g h = (committed g h).result

    pub law_stored :
        (g : Flag)
        → outcome.0 ≡ ok g
        → (e k : String)
        → stored codec outcome.1 e k
          ≡ (if environment == e && flag.key == k then some g else stored codec db e k)
    unfolding stored read_row
    law_stored g h e k =
        let c = committed g h in
        let row : Row codec = record {
          environment = environment;
          key = flag.key;
          definition = c.definition;
          revision = inc expected;
          updated_at = now;
        } in
        let r = written-IsRow codec now environment flag expected actor c.definition c.encodes in
        let d : codec.unmarshal c.definition ≡ some g =
          codec.unmarshal-marshal (numbered now flag expected) c.definition c.encodes
          ∙ ap some (sym c.result) in
        ap (λ (t : Tables codec). read_row codec (select codec e k t.flags)) c.wrote
        ∙ (ap (read_row codec) (select-upsert codec e k row db.tables.flags)
            ∙ elim (Bool-cases (is_at codec e k row)) [ inl m ↦ rw m d | inr m ↦ rw m refl ])

    pub law_log :
        (g : Flag)
        → outcome.0 ≡ ok g
        → (n : ℤ) × (log outcome.1 ≡ log db ++ entry_of n environment g actor ∷ [])
    unfolding copy
    law_log g h =
        let c = committed g h in
        (
          pos (suc (length db.tables.audit)),
          ap (λ (t : Tables codec). entries codec t.audit) c.wrote
              ∙ (entries-append codec db.tables.audit _ ∙ rw (c.result) refl),
        )

    pub law_valid : IsDatabase db → IsDatabase outcome.1
    law_valid v = elim publish-ended [
      | inl (g, e, c) ↦
          subst (λ (t : Tables codec). IsTable codec t.flags) (sym c.wrote)
            (upsert-IsTable codec _ db.tables.flags
              (written-IsRow codec now environment flag expected actor c.definition c.encodes) v)
      | inr (x, e, same) ↦ subst (λ (t : Tables codec). IsTable codec t.flags) (sym same) v
    ]

  -- The tables as the authority of flag policy.
  unfoldable pub sqlite : Authority
  sqlite = record {
    State = Database codec;
    publish = publish codec;
    load = load codec;
    audit = audit codec;
    stored = stored codec;
    log = log;
    IsValid = IsDatabase;
    publish-IsValid = law_valid;
    stored_keyed = law_keyed codec;
    loaded_stored = λ db m v h. law_loaded codec db m v h;
    accepted_revision = law_revision;
    accepted_result = law_result;
    accepted_stored = law_stored;
    accepted_log = law_log;
    refused_stored = law_refused_stored;
    refused_log = law_refused_log;
  }
