-- ===== src/Flags/Sqlite/Rows.antt =====
-- The table of the flags of internal/store/sqlite/sqlite.go under its primary key.
use saas_reaper.Base.{
  String, ◌≡◌, refl, sym, inl, inr, true, false, none, some, List, [], ◌∷◌, eq_iff, if◌then◌else◌,
  arith, Bool-cases, All, subst, or_else-none,
}
use saas_reaper.Base.Find.{last_match, Misses, MatchesOnce}
use saas_reaper.Flags.Flag.{Flag, copy}
use saas_reaper.Flags.Sqlite.{Codec, Row, is_at, select, upsert}

module _ (codec : Codec) where
  open codec use {Blob, unmarshal}

  -- A row holds a definition of its own key and revision.
  pub record IsRow (row : Row codec) : Type 0 where
    pub flag : Flag
    pub decoded : unmarshal row.definition ≡ some flag
    pub keyed : flag.key ≡ row.key
    pub revised : flag.revision ≡ row.revision
    pub copied : copy flag ≡ flag

  abbrev pub HasPrimaryKeys : List (Row codec) → Type 0
  HasPrimaryKeys [] = Unit
  HasPrimaryKeys (row ∷ rows) =
      Misses (is_at codec row.environment row.key) rows × HasPrimaryKeys rows

  pub record IsTable (rows : List (Row codec)) : Type 0 where
    pub keys : HasPrimaryKeys rows
    pub each : All IsRow rows

  -- Two rows of one primary key are found by the same statements.
  is_at_iff :
      (a b : Row codec)
      → is_at codec a.environment a.key b ≡ true
      → (b.environment ≡ a.environment) × (b.key ≡ a.key)
  is_at_iff a b h = ground (arith, eq_iff b.environment a.environment, eq_iff b.key a.key)

  is_at-same :
      (e k : String) (a b : Row codec)
      → is_at codec a.environment a.key b ≡ true
      → is_at codec e k b ≡ is_at codec e k a
  is_at-same e k a b h = let (x, y) = is_at_iff a b h in rw (x, y) refl

  is_at-other :
      (e k : String) (a b : Row codec)
      → is_at codec a.environment a.key b ≡ false
      → is_at codec e k a ≡ true
      → is_at codec e k b ≡ false
  is_at-other e k a b h m = ground (
    arith,
    eq_iff a.environment e,
    eq_iff a.key k,
    eq_iff b.environment e,
    eq_iff b.key k,
    eq_iff b.environment a.environment,
    eq_iff b.key a.key,
  )

  pub select-upsert :
      (e k : String) (new : Row codec) (rows : List (Row codec))
      → select codec e k (upsert codec new rows)
        ≡ (if is_at codec e k new then some new else select codec e k rows)
  unfolding select upsert
  select-upsert e k new [] = refl
  select-upsert e k new (row ∷ rows) = elim (Bool-cases (is_at codec new.environment new.key row)) [
    | inl h ↦
        rw (h, is_at-same e k new row h)
          (elim (Bool-cases (is_at codec e k new)) [ inl m ↦ rw m refl | inr m ↦ rw m refl ])
    | inr h ↦
        rw (h, select-upsert e k new rows)
          (elim (Bool-cases (is_at codec e k new)) [
            | inl m ↦ rw (m, is_at-other e k new row h m) refl
            | inr m ↦ rw m refl
          ])
  ]

  Misses-upsert :
      (old new : Row codec) (rows : List (Row codec))
      → is_at codec old.environment old.key new ≡ false
      → Misses (is_at codec old.environment old.key) rows
      → Misses (is_at codec old.environment old.key) (upsert codec new rows)
  unfolding upsert
  Misses-upsert old new [] h l = (h, tt)
  Misses-upsert old new (row ∷ rows) h l =
      elim (Bool-cases (is_at codec new.environment new.key row)) [
        | inl e ↦ rw e (h, l.1)
        | inr e ↦ rw e (l.0, Misses-upsert old new rows h l.1)
      ]

  is_at-flip :
      (a b : Row codec)
      → is_at codec a.environment a.key b ≡ false
      → is_at codec b.environment b.key a ≡ false
  is_at-flip a b h = ground (
    arith,
    eq_iff b.environment a.environment,
    eq_iff b.key a.key,
    eq_iff a.environment b.environment,
    eq_iff a.key b.key,
  )

  Misses-same :
      (a b : Row codec) (rows : List (Row codec))
      → is_at codec a.environment a.key b ≡ true
      → Misses (is_at codec b.environment b.key) rows
      → Misses (is_at codec a.environment a.key) rows
  Misses-same a b rows h l = let (x, y) = is_at_iff a b h in rw (sym x, sym y) l

  -- A row that is written keeps the table one.
  pub upsert-IsTable :
      (new : Row codec) (rows : List (Row codec))
      → IsRow new
      → IsTable rows
      → IsTable (upsert codec new rows)
  unfolding upsert
  upsert-IsTable new [] r t = record { keys = (tt, tt); each = (r, tt) }
  upsert-IsTable new (row ∷ rows) r t =
      elim (Bool-cases (is_at codec new.environment new.key row)) [
        | inl e ↦ rw e (record {
          keys = (Misses-same new row rows e t.keys.0, t.keys.1);
          each = (r, t.each.1);
        })
        | inr e ↦
            let rest = upsert-IsTable new rows r (record { keys = t.keys.1; each = t.each.1 }) in
            rw e (record {
              keys = (Misses-upsert row new rows (is_at-flip new row e) t.keys.0, rest.keys);
              each = (t.each.0, rest.each);
            })
      ]

  Misses-at :
      (e k : String) (row : Row codec) (rows : List (Row codec))
      → is_at codec e k row ≡ true
      → Misses (is_at codec row.environment row.key) rows
      → Misses (is_at codec e k) rows
  Misses-at e k row rows h l =
      let (x, y) : (row.environment ≡ e) × (row.key ≡ k) =
        ground (arith, eq_iff row.environment e, eq_iff row.key k) in
      rw (sym x, sym y) l

  pub HasPrimaryKeys-MatchesOnce :
      (e k : String) (rows : List (Row codec))
      → HasPrimaryKeys rows
      → MatchesOnce (is_at codec e k) rows
  HasPrimaryKeys-MatchesOnce e k [] u = tt
  HasPrimaryKeys-MatchesOnce e k (row ∷ rows) u =
      (λ h. Misses-at e k row rows h u.0, HasPrimaryKeys-MatchesOnce e k rows u.1)

  last_match-Misses :
      (e k : String) (rows : List (Row codec))
      → Misses (is_at codec e k) rows
      → last_match (is_at codec e k) rows ≡ none
  last_match-Misses e k [] l = refl
  last_match-Misses e k (row ∷ rows) l = rw (last_match-Misses e k rows l.1, l.0) refl

  -- Under a primary key the first row found is the last one.
  pub last_match-select :
      (e k : String) (rows : List (Row codec))
      → HasPrimaryKeys rows
      → last_match (is_at codec e k) rows ≡ select codec e k rows
  unfolding select
  last_match-select e k [] u = refl
  last_match-select e k (row ∷ rows) u = elim (Bool-cases (is_at codec e k row)) [
    | inl h ↦ rw (h, last_match-Misses e k rows (Misses-at e k row rows h u.0)) refl
    | inr h ↦ rw (h, last_match-select e k rows u.1) (or_else-none _)
  ]

  -- The row that is found is one of the table, at the environment and the key.
  pub select-IsRow :
      (e k : String) (rows : List (Row codec)) (row : Row codec)
      → All IsRow rows
      → select codec e k rows ≡ some row
      → IsRow row × (is_at codec e k row ≡ true)
  unfolding select
  select-IsRow e k [] row a h = cc
  select-IsRow e k (first ∷ rows) row a h = elim (Bool-cases (is_at codec e k first)) [
    | inl m ↦
        let same : first ≡ row = let x = rw m at h in cc in
        subst (λ row. IsRow row × (is_at codec e k row ≡ true)) same (a.0, m)
    | inr m ↦ select-IsRow e k rows row a.1 (rw m at h)
  ]
