-- ===== src/Flags/Service/Convergence.antt =====
-- Concurrent publications. `Publish` of internal/flags/publish.go commits to the store and then
-- writes the projection, each under a lock of its own, so that the projections of several calls may
-- come in any order, and between the commits of others.
pub mod Newer
pub mod Interleaving
pub mod Commit
pub mod Project
use saas_reaper.Base.{
  ℕ, String, ◌≡◌, ◌⊎◌, inl, inr, refl, sym, ap, ◌∙◌, subst, Bool, true, false, ◌&&◌, not, Option,
  none, some, List, [], ◌∷◌, ◌++◌, ◌==◌, eq_iff, ◌||◌, if◌then◌else◌, Result, ok, err, arith, All,
  All-append, Bool-cases, Option-cases,
}
use saas_reaper.Base.Int64.{
  ≤ℤ_antisymm, pos_part, neg_part, ℤ, pos, inc, inc-lt, ltb_ℤ, leb_ℤ, ◌≤ℤ◌, ◌<ℤ◌, max_int64,
}
use saas_reaper.Flags.Flag.{Error, Flag, copy}
use saas_reaper.Flags.Flag.Copy.{copy-copy}
use saas_reaper.Flags.Authority.{Authority, revision_of, next_revision}
use saas_reaper.Flags.Snapshot.{Snapshot, put, shown}
use saas_reaper.Flags.Snapshot.Laws.{shown-put, newer}
use mathlib.Core.List.{Memᴰ}
use saas_reaper.Flags.Service.Convergence.Newer.{
  All-map, All-drop, mem-nil, mem-drop, Covers-inc, both, both_self, newer_kept, newer-cases,
  Covers,
}
use saas_reaper.Flags.Service.Convergence.Interleaving.{
  Config, Step, commit, refuse, project, Steps, unmoved, after_step, IsCommitted, Inv,
}
use saas_reaper.Flags.Service.Convergence.Commit.{commit-Inv, refuse-Inv}
use saas_reaper.Flags.Service.Convergence.Project.{project-Inv}

module _ (authority : Authority) where
  open authority use {State, stored}

  Step-Inv : (c d : Config authority) → Step authority c d → Inv authority c → Inv authority d
  Step-Inv c d (commit now environment flag expected actor g done fits e) inv = rw e (
      commit-Inv authority now environment flag expected actor g c.store done fits inv.valid
        c.snapshot c.pending inv)
  Step-Inv c d (refuse now environment flag expected actor x refused e) inv = rw e (
      refuse-Inv authority c.store (authority.publish now environment flag expected actor c.store).1
        c.snapshot c.pending
        (authority.publish-IsValid now environment flag expected actor c.store inv.valid)
        (authority.refused_stored now environment flag expected actor c.store x refused) inv)
  Step-Inv c d (project before environment flag after' e shown_as) inv = rw shown_as (
      project-Inv authority c.store c.snapshot before after' environment flag
        (subst (λ p. Inv authority (record c { pending = p })) e inv))

  Steps-Inv : {c d : Config authority} → Steps authority c d → Inv authority c → Inv authority d
  Steps-Inv unmoved inv = inv
  Steps-Inv (after_step {d} {e} steps step) inv = Step-Inv d e step (Steps-Inv steps inv)

  -- The store is valid, and the projection shows exactly what is stored.
  pub record IsSettled (c : Config authority) : Type 0 where
    pub pending : c.pending ≡ []
    pub valid : authority.IsValid c.store
    pub same : (e k : String) → shown c.snapshot e k ≡ stored c.store e k

  Covers-same : (o : Option Flag) (p : Flag) → o ≡ some p → Covers o p
  Covers-same none p e = cc
  Covers-same (some q) p e =
      let same : q ≡ p = cc in subst (Covers (some q)) same (omega arith, λ _. refl)

  IsSettled-Inv : (c : Config authority) → IsSettled c → Inv authority c
  IsSettled-Inv c h = record {
    valid = h.valid;
    pending = rw h.pending tt;
    covered = λ e k p x.
        let y = sym (h.same e k) ∙ x in
        (authority.stored_keyed c.store h.valid e k p y, Covers-same (stored c.store e k) p y);
    reached = λ e k g x. (authority.stored_keyed c.store h.valid e k g x, inl (h.same e k ∙ x));
  }

  -- From a settled start, whatever publications commit and are refused, and in whatever order their
  -- projections come, as long as no commit is over the largest int64: once every commit is
  -- projected, the projection shows, at each environment and key, exactly what is stored there.
  pub projection_converges :
      {c d : Config authority}
      → IsSettled c
      → Steps authority c d
      → d.pending ≡ []
      → (e k : String) → shown d.snapshot e k ≡ stored d.store e k
  projection_converges {d} settled steps done e k =
      let inv = Steps-Inv steps (IsSettled-Inv _ settled) in
      elim (Option-cases (stored d.store e k)) [
        | inl none_stored ↦ elim (Option-cases (shown d.snapshot e k)) [
          | inl none_shown ↦ none_shown ∙ sym none_stored
          | inr (p, shows) ↦
              let x = subst (λ o. Covers o p) none_stored (inv.covered e k p shows).1 in absurd x
        ]
        | inr (g, stores) ↦ elim (inv.reached e k g stores).1 [
          | inl shows ↦ shows ∙ sym stores
          | inr m ↦ absurd (mem-nil (subst (Memᴰ (e, g)) done m))
        ]
      ]

  -- From a settled start, at every moment, whatever commits are still to be projected, as long as
  -- none is over the largest int64: a definition that the projection shows has its own key and a
  -- revision that is at most that of the stored one, and is the stored one if the revisions are equal.
  pub projection_never_ahead :
      {c d : Config authority}
      → IsSettled c
      → Steps authority c d
      → (e k : String) (p : Flag) → shown d.snapshot e k ≡ some p
      → (p.key ≡ k)
        × ((g : Flag) × (stored d.store e k ≡ some g)
            × (p.revision ≤ℤ g.revision)
            × (p.revision ≡ g.revision → p ≡ g))
  projection_never_ahead {d} settled steps e k p shows =
      let inv = Steps-Inv steps (IsSettled-Inv _ settled) in
      let (key, covered) = inv.covered e k p shows in
      (
        key,
        elim (Option-cases (stored d.store e k)) [
          | inl none_stored ↦ absurd (subst (λ o. Covers o p) none_stored covered)
          | inr (g, stores) ↦
              let (older, equal) = subst (λ o. Covers o p) stores covered in
              (g, stores, older, equal)
        ],
      )
