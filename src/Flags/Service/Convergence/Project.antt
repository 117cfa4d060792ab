-- ===== src/Flags/Service/Convergence/Project.antt =====
-- Projections, the steps of `Publish` of internal/flags/publish.go at the snapshot.
use saas_reaper.Base.{
  String, ◌≡◌, ◌⊎◌, inl, inr, refl, sym, ap, ◌∙◌, subst, ◌&&◌, Option, some, List, ◌∷◌, ◌++◌, ◌==◌,
  Bool-cases,
}
use saas_reaper.Base.Int64.{≤ℤ_antisymm}
use saas_reaper.Flags.Flag.{Flag}
use saas_reaper.Flags.Authority.{Authority}
use saas_reaper.Flags.Snapshot.{Snapshot, put, shown}
use saas_reaper.Flags.Snapshot.Laws.{shown-put, newer}
use mathlib.Core.List.{Memᴰ}
use saas_reaper.Flags.Service.Convergence.Newer.{
  All-drop, mem-drop, both, both_self, newer_kept, newer-cases, Covers,
}
use saas_reaper.Flags.Service.Convergence.Interleaving.{IsCommitted, Inv}

module _ (authority : Authority) where
  open authority use {State, stored}

  module _ (s : State) (snapshot : Snapshot) (before after' : List (String × Flag))
      (environment : String) (flag : Flag)
      (inv : Inv authority (record {
        store = s;
        snapshot = snapshot;
        pending = before ++ (environment, flag) ∷ after';
      })) where
    mine : IsCommitted authority s (environment, flag)
    mine = (All-drop (IsCommitted authority s) before (environment, flag) after' inv.pending).0

    abbrev shown' : String → String → Option Flag
    shown' = shown (put environment flag snapshot)

    shown_hit :
        (e k : String)
        → environment ≡ e
        → flag.key ≡ k
        → shown' e k ≡ newer (shown snapshot e k) flag
    shown_hit e k x y =
        shown-put snapshot environment flag e k
        ∙ (rw (both_self environment e flag.key k x y) (rw (x, y) refl))

    mine_covered : (e k : String) → environment ≡ e → flag.key ≡ k → Covers (stored s e k) flag
    mine_covered e k x y = rw (← x, ← y) mine.1

    project-covered :
        (e k : String) (p : Flag) → shown' e k ≡ some p → (p.key ≡ k) × Covers (stored s e k) p
    project-covered e k p h = elim (Bool-cases (environment == e && flag.key == k)) [
      | inl hit ↦
          let (x, y) = both environment e flag.key k hit in
          elim (newer-cases (shown snapshot e k) flag mine.0) [
            | inl n ↦
                let same : flag ≡ p = cc (shown_hit e k x y) in
                (
                  sym (ap (λ (f : Flag). f.key) same) ∙ y,
                  subst (Covers (stored s e k)) same (mine_covered e k x y),
                )
            | inr (q, o, le, n) ↦
                let same : q ≡ p = cc (shown_hit e k x y) in
                subst (λ f. (f.key ≡ k) × Covers (stored s e k) f) same (inv.covered e k q o)
          ]
      | inr miss ↦ inv.covered e k p (sym (rw (shown-put, miss) refl) ∙ h)
    ]

    -- What is shown once the newest publication of a key is projected.
    shown_newest :
        (e k : String) (g : Flag)
        → environment ≡ e
        → flag.key ≡ k
        → stored s e k ≡ some g
        → g ≡ flag
        → shown' e k ≡ some g
    shown_newest e k g x y h same = elim (newer-cases (shown snapshot e k) flag mine.0) [
      | inl n ↦ cc (shown_hit e k x y)
      | inr (q, o, le, n) ↦
          let (older, equal) = subst (λ t. Covers t q) h (inv.covered e k q o).1 in
          let level = ≤ℤ_antisymm q.revision g.revision older (rw same le) in
          cc (shown_hit e k x y, equal level)
    ]

    project-reached :
        (e k : String) (g : Flag)
        → stored s e k ≡ some g
        → (g.key ≡ k) × ((shown' e k ≡ some g) ⊎ Memᴰ (e, g) (before ++ after'))
    project-reached e k g h =
        let (key, was) = inv.reached e k g h in
        (
          key,
          elim (Bool-cases (environment == e && flag.key == k)) [
            | inl hit ↦
                let (x, y) = both environment e flag.key k hit in
                elim was [
                  | inl q ↦
                      let (older, equal) = subst (λ t. Covers t flag) h (mine_covered e k x y) in
                      inl (shown_hit e k x y ∙ rw q (newer_kept g flag older))
                  | inr m ↦ elim (mem-drop (e, g) (environment, flag) before after' m) [
                    | inl same ↦
                        inl (shown_newest e k g x y h (ap (λ (t : String × Flag). t.1) same))
                    | inr rest ↦ inr rest
                  ]
                ]
            | inr miss ↦ elim was [
              | inl q ↦ inl (rw (shown-put, miss) q)
              | inr m ↦ elim (mem-drop (e, g) (environment, flag) before after' m) [
                | inl same ↦
                    let x = sym (ap (λ (t : String × Flag). t.0) same) in
                    let y = ap (λ (t : String × Flag). t.1.key) same in
                    let z = both_self environment e flag.key k x (sym y ∙ key) in cc
                | inr rest ↦ inr rest
              ]
            ]
          ],
        )

    pub project-Inv :
        Inv authority (record {
          store = s;
          snapshot = put environment flag snapshot;
          pending = before ++ after';
        })
    project-Inv = record {
      valid = inv.valid;
      pending =
          (All-drop (IsCommitted authority s) before (environment, flag) after' inv.pending).1;
      covered = project-covered;
      reached = project-reached;
    }
