-- ===== src/Tunnel/Service/Invariant.antt =====
-- What holds of a tunnel service between its calls, and the parts of its preservation: the rows of
-- one subdomain, and the effect of each change of the routing table.
use saas_reaper.Base.{
  ℕ, String, ◌≡◌, ◌⊎◌, inl, inr, refl, sym, ap, ◌∙◌, subst, true, false, Option, none, some, List,
  [], ◌∷◌, ◌++◌, ◌==◌, eq_iff, if◌then◌else◌, ok, arith, Bool-cases,
}
use saas_reaper.Base.Map.{lookup}
use saas_reaper.Tunnel.Lifecycle.{
  ClaimState, claim_active, claim_revoked, Presence, presence_absent, presence_live, event_connect,
  event_link_lost, event_revoke, AuditKind, audit_disconnected, Actor, Detail, AuditEntry,
}
use saas_reaper.Tunnel.Lifecycle.Replay.{Position, unclaimed, at, advance, advance_all}
use saas_reaper.Tunnel.Claim.{Claim, state}
use saas_reaper.Tunnel.Registry.{Attachment, Registry, presence}
use saas_reaper.Tunnel.Store.{Store}
use saas_reaper.Tunnel.Service.{entries, decide, Service}
use mathlib.Core.List.{append_assoc}

-- The kinds of the rows of one subdomain, oldest first.
abbrev pub kinds_of : String → List AuditEntry → List AuditKind
kinds_of d [] = []
kinds_of d (row ∷ rows) = if row.subdomain == d then row.kind ∷ kinds_of d rows else kinds_of d rows

kinds_of-append :
    (d : String) (xs ys : List AuditEntry) → kinds_of d (xs ++ ys) ≡ kinds_of d xs ++ kinds_of d ys
kinds_of-append d [] ys = refl
kinds_of-append d (x ∷ xs) ys = ground (arith, kinds_of-append d xs ys)

kinds_of-entries :
    (d : String) (kinds : List AuditKind) (e : String) (time : ℕ) (actor : Actor) (detail : Detail)
    → kinds_of d (entries kinds e time actor detail) ≡ (if e == d then kinds else [])
unfolding entries
kinds_of-entries d [] e time actor detail = ground arith
kinds_of-entries d (k ∷ ks) e time actor detail =
    ground (arith, kinds_of-entries d ks e time actor detail)

advance_all-append :
    (p : Position) (xs ys : List AuditKind)
    → advance_all p (xs ++ ys) ≡ advance_all (advance_all p xs) ys
advance_all-append p [] ys = refl
advance_all-append p (k ∷ ks) ys = advance_all-append (advance p k) ks ys

-- Where the claim and the table put a subdomain.
abbrev pub position : Option Claim → Presence → Position
position none p = unclaimed
position (some c) p = at (state c) p

-- Where rows lead a subdomain from a position.
abbrev pub replayed : Position → List AuditEntry → String → Position
replayed p rows d = advance_all p (kinds_of d rows)

replayed-append :
    (p : Position) (rows : List AuditEntry) (kinds : List AuditKind) (e : String) (time : ℕ)
    (actor : Actor) (detail : Detail) (d : String)
    → replayed p (rows ++ entries kinds e time actor detail) d
      ≡ (if e == d then advance_all (replayed p rows d) kinds else replayed p rows d)
replayed-append p rows kinds e time actor detail d =
    ap (advance_all p) (
      kinds_of-append d rows (entries kinds e time actor detail)
      ∙ ap (λ k. kinds_of d rows ++ k) (kinds_of-entries d kinds e time actor detail))
    ∙ (advance_all-append p (kinds_of d rows) (if e == d then kinds else []) ∙ ground arith)

-- A connect is decided for an active claim only, and its rows lead to a live one.
pub decide_connect :
    (c : ClaimState) (p : Presence) (kinds : List AuditKind)
    → decide c p event_connect ≡ ok kinds
    → (c ≡ claim_active) × (advance_all (at c p) kinds ≡ at claim_active presence_live)
unfolding decide
decide_connect claim_active presence_absent kinds h = ground arith
decide_connect claim_active presence_live kinds h = ground arith
decide_connect claim_revoked presence_absent kinds h = cc
decide_connect claim_revoked presence_live kinds h = cc

pub decide_revoke :
    (c : ClaimState) (p : Presence) (kinds : List AuditKind)
    → decide c p event_revoke ≡ ok kinds
    → (c ≡ claim_active) × (advance_all (at c p) kinds ≡ at claim_revoked presence_absent)
unfolding decide
decide_revoke claim_active presence_absent kinds h = ground arith
decide_revoke claim_active presence_live kinds h = ground arith
decide_revoke claim_revoked presence_absent kinds h = cc
decide_revoke claim_revoked presence_live kinds h = cc

pub decide_lost : decide claim_active presence_live event_link_lost ≡ ok (audit_disconnected ∷ [])
unfolding decide
decide_lost = refl

-- The presence that the table's entry shows.
abbrev pub presence_of : Option Attachment → Presence
presence_of none = presence_absent
presence_of (some a) = presence_live

pub presence_lem : (d : String) (live : Registry) → presence d live ≡ presence_of (lookup d live)
unfolding presence
presence_lem d live = ground arith

module _ (durable : Store) where
  open durable use {State, claim_at, log}

  -- Where the claim and the table put a subdomain.
  abbrev pub position_in : Service durable → String → Position
  position_in s d = position (claim_at s.store d) (presence_of (lookup d s.live))

  -- A live link serves an active claim; a takeover is remembered only of a live link; and the rows
  -- that were added since the service started over `start`, with no link, lead each subdomain from
  -- its claim then to its claim's state and its presence.
  pub record Inv (start : State) (s : Service durable) : Type 0 where
    pub live_active :
        (d : String) (a : Attachment)
        → lookup d s.live ≡ some a
        → (c : Claim) × (claim_at s.store d ≡ some c) × (c.revoked ≡ false)
    pub superseded_live :
        (d : String) (t : ℕ)
        → lookup d s.superseded ≡ some t
        → (a : Attachment) × (lookup d s.live ≡ some a)
    pub added : List AuditEntry
    pub logged : log s.store ≡ log start ++ added
    pub audited :
        (d : String)
        → replayed (position (claim_at start d) presence_absent) added d ≡ position_in s d

  -- The position of a subdomain whose claim is `c`.
  pub position_claim :
      (s : Service durable) (d : String) (c : Claim)
      → claim_at s.store d ≡ some c
      → position_in s d ≡ at (state c) (presence d s.live)
  position_claim s d c e = rw e refl ∙ ap (at (state c)) (sym (presence_lem d s.live))

  -- A claim that stays as it is.
  pub kept_claim :
      (s : State) (d : String) (o : Option Claim)
      → claim_at s d ≡ o
      → (k : String) → claim_at s k ≡ (if d == k then o else claim_at s k)
  kept_claim s d o e k = elim (Bool-cases (d == k)) [
    | inl x ↦ rw x (subst (λ k. claim_at s k ≡ o) ((eq_iff d k).0 x) e)
    | inr x ↦ rw x
  ]

  -- A write that failed.
  pub failed-Inv :
      (start : State) (s : Service durable) (t : State)
      → ((d : String) → claim_at t d ≡ claim_at s.store d)
      → log t ≡ log s.store
      → Inv start s
      → Inv start (record s { store = t })
  failed-Inv start s t same logged inv = record {
    live_active = λ d a h. rw (same d) (inv.live_active d a h);
    superseded_live = inv.superseded_live;
    added = inv.added;
    logged = logged ∙ inv.logged;
    audited = λ d. rw (same d) (inv.audited d);
  }

  -- A call that changes the claim, the entry of the table and the rows of one subdomain alone.
  module _ (start : State) (s s' : Service durable) (d : String) (claim' : Option Claim)
      (live' : Option Attachment)
      (claims : (k : String)
        → claim_at s'.store k ≡ (if d == k then claim' else claim_at s.store k))
      (lives : (k : String) → lookup k s'.live ≡ (if d == k then live' else lookup k s.live))
      (kinds : List AuditKind) (time : ℕ) (actor : Actor) (detail : Detail)
      (appended : log s'.store ≡ log s.store ++ entries kinds d time actor detail)
      (lead : advance_all (position_in s d) kinds ≡ position claim' (presence_of live'))
      (active : (a : Attachment)
        → live' ≡ some a
        → (c : Claim) × (claim' ≡ some c) × (c.revoked ≡ false))
      (taken : (k : String) (t : ℕ)
        → lookup k s'.superseded ≡ some t
        → ((d == k) ≡ true) × ((a : Attachment) × (live' ≡ some a))
          ⊎ ((d == k) ≡ false) × (lookup k s.superseded ≡ some t)) where
    leads :
        (p : Position) (added : List AuditEntry) (k : String)
        → replayed p added k ≡ position_in s k
        → replayed p (added ++ entries kinds d time actor detail) k ≡ position_in s' k
    leads p added k before = elim (Bool-cases (d == k)) [
      | inl e ↦
          let here =
            subst (λ k. advance_all (position_in s k) kinds ≡ position claim' (presence_of live'))
              ((eq_iff d k).0 e) lead in
          replayed-append p added kinds d time actor detail k
          ∙ rw (before, claims k, lives k, e) here
      | inr e ↦
          replayed-append p added kinds d time actor detail k
          ∙ rw (before, claims k, lives k, e) refl
    ]

    pub moved-Inv : Inv start s → Inv start s'
    moved-Inv inv = record {
      live_active = λ k a h. elim (Bool-cases (d == k)) [
        | inl e ↦
            let l : live' ≡ some a = sym (rw (lives k, e) refl) ∙ h in
            let (c, x, y) = active a l in (c, rw (claims k, e) x, y)
        | inr e ↦
            let (c, x, y) = inv.live_active k a (sym (rw (lives k, e) refl) ∙ h) in
            (c, rw (claims k, e) x, y)
      ];
      superseded_live = λ k t h. elim (taken k t h) [
        | inl (e, (a, x)) ↦ (a, rw (lives k, e) x)
        | inr (e, x) ↦ let (a, y) = inv.superseded_live k t x in (a, rw (lives k, e) y)
      ];
      added = inv.added ++ entries kinds d time actor detail;
      logged =
          appended
          ∙ (ap (λ rows. rows ++ entries kinds d time actor detail) inv.logged
              ∙ append_assoc (log start) inv.added (entries kinds d time actor detail));
      audited = λ k. leads _ inv.added k (inv.audited k);
    }
