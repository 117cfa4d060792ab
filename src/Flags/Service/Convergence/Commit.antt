-- ===== src/Flags/Service/Convergence/Commit.antt =====
-- Commits and refusals, the steps of `Publish` of internal/flags/publish.go at the store.
use saas_reaper.Base.{
  ℕ, String, ◌≡◌, inl, inr, refl, sym, ap, ◌∙◌, subst, ◌&&◌, some, List, ◌∷◌, ◌==◌, if◌then◌else◌,
  ok, arith, Bool-cases,
}
use saas_reaper.Base.Int64.{ℤ, pos, inc, ◌<ℤ◌, max_int64}
use saas_reaper.Flags.Flag.{Flag, copy}
use saas_reaper.Flags.Flag.Copy.{copy-copy}
use saas_reaper.Flags.Authority.{Authority, next_revision}
use saas_reaper.Flags.Snapshot.{Snapshot}
use mathlib.Core.List.{Memᴰ}
use saas_reaper.Flags.Service.Convergence.Newer.{All-map, Covers-inc, both, both_self, Covers}
use saas_reaper.Flags.Service.Convergence.Interleaving.{IsCommitted, Inv}

module _ (authority : Authority) where
  open authority use {State, stored}

  module _ (now : ℕ) (environment : String) (flag : Flag) (expected : ℤ) (actor : String) (g : Flag)
      (s : State) (done : (authority.publish now environment flag expected actor s).0 ≡ ok g)
      (fits : expected <ℤ pos max_int64) (valid : authority.IsValid s) where
    abbrev after : State
    after = (authority.publish now environment flag expected actor s).1

    result : g ≡ next_revision now flag expected
    result = authority.accepted_result now environment flag expected actor s g done

    result_key : g.key ≡ flag.key
    unfolding copy
    result_key = ap (λ (f : Flag). f.key) result

    result_revision : g.revision ≡ inc expected
    unfolding copy
    result_revision = ap (λ (f : Flag). f.revision) result

    result_copy : copy g ≡ g
    result_copy = ap copy result ∙ (copy-copy _ ∙ sym result)

    stored_after :
        (e k : String)
        → stored after e k ≡ (if environment == e && flag.key == k then some g else stored s e k)
    stored_after = authority.accepted_stored now environment flag expected actor s g done

    stored_hit : (e k : String) → environment ≡ e → flag.key ≡ k → stored after e k ≡ some g
    stored_hit e k x y = stored_after e k ∙ rw (both_self environment e flag.key k x y) refl

    Covers-after : (e k : String) (p : Flag) → Covers (stored s e k) p → Covers (stored after e k) p
    Covers-after e k p c = elim (Bool-cases (environment == e && flag.key == k)) [
      | inl hit ↦
          let (x, y) = both environment e flag.key k hit in
          let current =
            authority.accepted_revision now environment flag expected actor s g valid done in
          rw (stored_hit e k x y)
            (Covers-inc (stored s e k) p g expected c (rw (← x, ← y) current) result_revision fits)
      | inr miss ↦ rw (stored_after e k, miss) c
    ]

    pub commit-Inv :
        (snapshot : Snapshot) (pending : List (String × Flag))
        → Inv authority (record { store = s; snapshot = snapshot; pending = pending })
        → Inv authority
            (record { store = after; snapshot = snapshot; pending = (environment, g) ∷ pending })
    commit-Inv snapshot pending inv = record {
      valid = authority.publish-IsValid now environment flag expected actor s valid;
      pending = (
        (
          result_copy,
          subst (λ o. Covers o g) (sym (stored_hit environment g.key refl (sym result_key)))
              (omega arith, λ same. refl),
        ),
        All-map (IsCommitted authority s) (IsCommitted authority after) pending
            (λ entry c. (c.0, Covers-after entry.0 entry.1.key entry.1 c.1)) inv.pending,
      );
      covered = λ e k p h. let c = inv.covered e k p h in (c.0, Covers-after e k p c.1);
      reached = λ e k h stored_h. elim (Bool-cases (environment == e && flag.key == k)) [
        | inl hit ↦
            let (x, y) = both environment e flag.key k hit in
            let same : g ≡ h = cc (stored_hit e k x y) in
            (cc (ap (λ (f : Flag). f.key) same, result_key), inr (Memᴰ.head (cc (x, same))))
        | inr miss ↦
            let (key, found) =
              inv.reached e k h (sym (rw (stored_after e k, miss) refl) ∙ stored_h) in
            (key, elim found [ inl q ↦ inl q | inr m ↦ inr (Memᴰ.tail m) ])
      ];
    }

  -- A state that stores the same keeps the invariant.
  pub refuse-Inv :
      (s t : State) (snapshot : Snapshot) (pending : List (String × Flag))
      → authority.IsValid t
      → ((e k : String) → stored t e k ≡ stored s e k)
      → Inv authority (record { store = s; snapshot = snapshot; pending = pending })
      → Inv authority (record { store = t; snapshot = snapshot; pending = pending })
  refuse-Inv s t snapshot pending valid same inv = record {
    valid = valid;
    pending =
        All-map (IsCommitted authority s) (IsCommitted authority t) pending
          (λ entry c. (c.0, subst (λ o. Covers o entry.1) (sym (same entry.0 entry.1.key)) c.1))
          inv.pending;
    covered = λ e k p h.
        let c = inv.covered e k p h in (c.0, subst (λ o. Covers o p) (sym (same e k)) c.1);
    reached = λ e k g h. inv.reached e k g (sym (same e k) ∙ h);
  }
