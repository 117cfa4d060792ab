-- ===== src/Flags/Sqlite/Restore.antt =====
-- What `Load` of internal/store/sqlite/sqlite.go reads is what is stored.
use saas_reaper.Base.{
  String, ◌≡◌, refl, sym, ap, ◌∙◌, inl, inr, Option, some, List, [], ◌∷◌, ◌++◌, ◌==◌, eq_iff,
  if◌then◌else◌, Bool-cases, Option-cases, All, subst, arith, or_else, or_else-none, ok, bind-then,
  unit-then,
}
use saas_reaper.Base.Map.{Map, lookup, insert, lookup-insert, HasUniqueKeys, insert-HasUniqueKeys}
use saas_reaper.Base.Sort.{sort_by}
use saas_reaper.Base.Find.{
  last_match, find_last, last_match-All, last_match-append, last_match-sort_by, All-sort_by,
}
use saas_reaper.Flags.Flag.{Flag, copy, validate}
use saas_reaper.Flags.Authority.{flag_key, definitions_of}
use saas_reaper.Flags.Sqlite.{
  Codec, Row, Database, is_at, select, unmarshaled, decode, load_rows, load, row_before, read_row,
  stored,
}
use saas_reaper.Flags.Sqlite.Rows.{
  IsRow, IsTable, HasPrimaryKeys-MatchesOnce, last_match-select, select-IsRow,
}
use mathlib.Core.Option

definitions_of-insert :
    (written read : String) (fs : List Flag) (m : Map (List Flag))
    → definitions_of read (insert written fs m)
      ≡ (if written == read then fs else definitions_of read m)
definitions_of-insert written read fs m =
    rw (lookup-insert written read fs m)
      (elim (Bool-cases (written == read)) [ inl h ↦ rw h refl | inr h ↦ rw h refl ])

module _ (codec : Codec) where
  open codec use {Blob, unmarshal}

  -- What is found in the definitions that were loaded, as it is put into the projection.
  abbrev recalled : String → String → Map (List Flag) → Option Flag
  recalled e k m = Option.map copy (find_last flag_key k (definitions_of e m))

  decode-ok :
      (row : Row codec) (f : Flag) (r : IsRow codec row)
      → decode codec row.definition ≡ ok f
      → f ≡ r.flag
  unfolding decode unmarshaled
  decode-ok row f r h =
      let x = rw r.decoded at h in let (u, y) = unit-then (validate r.flag) _ _ x in cc

  recalled-row :
      (e k : String) (row : Row codec) (f : Flag) (m : Map (List Flag)) (r : IsRow codec row)
      → f ≡ r.flag
      → recalled e k (insert row.environment (definitions_of row.environment m ++ f ∷ []) m)
        ≡ (if is_at codec e k row then some r.flag else recalled e k m)
  recalled-row e k row f m r same =
      let keyed : f.key ≡ row.key = ap flag_key same ∙ r.keyed in
      let test : (f.key == k) ≡ (row.key == k) = ap (λ j. j == k) keyed in
      let copied : copy f ≡ r.flag = ap copy same ∙ r.copied in
      rw (definitions_of-insert row.environment e (definitions_of row.environment m ++ f ∷ []) m)
        (elim (Bool-cases (row.environment == e)) [
          | inl h ↦
              let at : row.environment ≡ e = (eq_iff row.environment e).0 h in
              rw h (
                rw
                  (
                    last_match-append (λ x. flag_key x == k) f (definitions_of row.environment m),
                    test,
                    at,
                  )
                  (elim (Bool-cases (row.key == k)) [
                    | inl z ↦ rw z (ap some copied)
                    | inr z ↦ rw z refl
                  ]))
          | inr h ↦ rw h refl
        ])

  -- The rows that are left to load add what they hold to what was loaded before.
  load_rows-recalled :
      (e k : String) (rows : List (Row codec)) (loaded m : Map (List Flag))
      → All (IsRow codec) rows
      → load_rows codec loaded rows ≡ ok m
      → recalled e k m
        ≡ or_else (read_row codec (last_match (is_at codec e k) rows)) (recalled e k loaded)
  unfolding load_rows read_row lookup
  load_rows-recalled e k [] loaded m a h = let x : loaded ≡ m = cc in ap (recalled e k) (sym x)
  load_rows-recalled e k (row ∷ rows) loaded m a h =
      let (f, d, rest) = bind-then (decode codec row.definition) _ _ h in
      let next = insert row.environment (definitions_of row.environment loaded ++ f ∷ []) loaded in
      load_rows-recalled e k rows next m a.1 rest
      ∙ (ap (or_else (read_row codec (last_match (is_at codec e k) rows)))
            (recalled-row e k row f loaded a.0 (decode-ok row f a.0 d))
          ∙ elim (Option-cases (last_match (is_at codec e k) rows)) [
            | inl z ↦ rw z (elim (Bool-cases (is_at codec e k row)) [
              | inl w ↦ let y = a.0.decoded in rw (w, y) refl
              | inr w ↦ rw w refl
            ])
            | inr (found, z) ↦
                let r = last_match-All (is_at codec e k) (IsRow codec) rows found a.1 z in
                let y = r.decoded in rw (z, y) refl
          ])

  load_rows-HasUniqueKeys :
      (rows : List (Row codec)) (loaded m : Map (List Flag))
      → HasUniqueKeys loaded
      → load_rows codec loaded rows ≡ ok m
      → HasUniqueKeys m
  unfolding load_rows
  load_rows-HasUniqueKeys [] loaded m u h = let x : loaded ≡ m = cc in subst HasUniqueKeys x u
  load_rows-HasUniqueKeys (row ∷ rows) loaded m u h =
      let (f, d, rest) = bind-then (decode codec row.definition) _ _ h in
      load_rows-HasUniqueKeys rows _ m (insert-HasUniqueKeys row.environment _ loaded u) rest

  loaded_rows :
      (db : Database codec) (m : Map (List Flag))
      → load codec db ≡ ok m
      → load_rows codec [] (sort_by (row_before codec) db.tables.flags) ≡ ok m
  unfolding load
  loaded_rows db m h = elim (Bool-cases db.unreadable) [
    | inl e ↦ let x = rw e at h in cc
    | inr e ↦ rw e at h
  ]

  pub law_loaded :
      (db : Database codec) (m : Map (List Flag))
      → IsTable codec db.tables.flags
      → load codec db ≡ ok m
      → HasUniqueKeys m × ((e k : String) → recalled e k m ≡ stored codec db e k)
  unfolding stored read_row lookup
  law_loaded db m t h =
      let rows = sort_by (row_before codec) db.tables.flags in
      let work = loaded_rows db m h in
      let each = All-sort_by (IsRow codec) (row_before codec) db.tables.flags t.each in
      (
        load_rows-HasUniqueKeys rows [] m tt work,
        λ e k.
            load_rows-recalled e k rows [] m each work
            ∙ (or_else-none _
                ∙ ap (read_row codec) (
                    last_match-sort_by (is_at codec e k) (row_before codec) db.tables.flags
                      (HasPrimaryKeys-MatchesOnce codec e k db.tables.flags t.keys)
                    ∙ last_match-select codec e k db.tables.flags t.keys)),
      )

  pub law_keyed :
      (db : Database codec)
      → IsTable codec db.tables.flags
      → (e k : String) (g : Flag) → stored codec db e k ≡ some g
      → g.key ≡ k
  unfolding stored read_row
  law_keyed db t e k g h = elim (Option-cases (select codec e k db.tables.flags)) [
    | inl z ↦ let x = rw z at h in cc
    | inr (row, z) ↦
        let (r, at) = select-IsRow codec e k db.tables.flags row t.each z in
        let x = rw z at h in
        let key : row.key ≡ k = ground (arith, eq_iff row.key k) in
        let same : r.flag ≡ g = let y = r.decoded in cc in ap flag_key (sym same) ∙ (r.keyed ∙ key)
  ]
