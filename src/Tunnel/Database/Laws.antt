-- ===== src/Tunnel/Database/Laws.antt =====
-- The transactions of specimens/ingress-tunnel/internal/store/sqlite keep what tunnel policy relies
-- on: the `Store` interface, filled by the tables.
use saas_reaper.Base.{
  ℕ, String, ◌≡◌, sym, ap, ◌∙◌, inl, inr, Bool, true, false, Option, none, some, List, [], ◌∷◌,
  ◌++◌, ◌==◌, eq_iff, if◌then◌else◌, Result, ok, err, Bool-cases,
}
use saas_reaper.Base.Map.{lookup, lookup-insert, values}
use saas_reaper.Base.Int64.{ℤ, inc}
use saas_reaper.Base.Durable.{first_plan, ended, ended-ok, ended-err}
use saas_reaper.Tunnel.Lifecycle.{Error, AuditEntry}
use saas_reaper.Tunnel.Claim.{Claim}
use saas_reaper.Tunnel.Store.{Store}
use saas_reaper.Tunnel.Database.{
  Tables, Database, stored, inserting, insert_claim, scan_claim, find_hash, claim_by_token_hash,
  claim_by_subdomain, revoking, revoke_claim, appending, append_audit, list_claims,
}
use saas_reaper.Tunnel.Database.Transactions.{inserting_lem, revoking_lem, appending_lem}

abbrev pub claim_at : Database → String → Option Claim
claim_at db d = lookup d db.tables.claims

abbrev pub log : Database → List AuditEntry
log db = db.tables.audit

-- A transaction that failed left every claim and every row as it was.
kept :
    {A : Type 0} (r : Result (Error × Tables) (A × Tables)) (db : Database) (e : Error)
    → (ended r db).0 ≡ err e
    → ((k : String) → claim_at (ended r db).1 k ≡ claim_at db k) × (log (ended r db).1 ≡ log db)
kept r db e h =
    let same = ended-err r db e h in (λ k. ap (λ t. lookup k t.claims) same, ap Tables.audit same)

pub inserted :
    (c : Claim) (entry : AuditEntry) (db : Database)
    → (insert_claim c entry db).0 ≡ ok tt
    → (claim_at db c.subdomain ≡ none)
      × ((d : String)
          → claim_at (insert_claim c entry db).1 d
            ≡ (if c.subdomain == d then some (stored c) else claim_at db d))
      × (log (insert_claim c entry db).1 ≡ log db ++ entry ∷ [])
unfolding insert_claim
inserted c entry db h =
    let plan = first_plan db.plans in
    let (t, r, same) = ended-ok (inserting plan c entry db.tables) db tt h in
    let (free, claims, rows) = inserting_lem plan c entry db.tables t r in
    (
      free,
      λ d.
          ap (λ u. lookup d u.claims) same
          ∙ (ap (lookup d) claims ∙ lookup-insert c.subdomain d (stored c) db.tables.claims),
      ap Tables.audit same ∙ rows,
    )

pub revoked :
    (d : String) (expected : ℤ) (now : ℕ) (entries : List AuditEntry) (db : Database) (c : Claim)
    → (revoke_claim d expected now entries db).0 ≡ ok c
    → (old : Claim) × (claim_at db d ≡ some old)
      × (old.revoked ≡ false)
      × (old.revision ≡ expected)
      × (c ≡ record old { revoked = true; revision = inc expected; revoked_at = now })
      × ((k : String)
          → claim_at (revoke_claim d expected now entries db).1 k
            ≡ (if d == k then some c else claim_at db k))
      × (log (revoke_claim d expected now entries db).1 ≡ log db ++ entries)
unfolding revoke_claim
revoked d expected now entries db c h =
    let plan = first_plan db.plans in
    let (t, r, same) = ended-ok (revoking plan d expected now entries db.tables) db c h in
    let (old, here, alive, revision, changed, claims, rows) =
      revoking_lem plan d expected now entries db.tables t c r in
    (
      old,
      here,
      alive,
      revision,
      changed,
      λ k.
          ap (λ u. lookup k u.claims) same
          ∙ (ap (lookup k) claims ∙ lookup-insert d k c db.tables.claims),
      ap Tables.audit same ∙ rows,
    )

pub appended :
    (entries : List AuditEntry) (db : Database)
    → (append_audit entries db).0 ≡ ok tt
    → ((k : String) → claim_at (append_audit entries db).1 k ≡ claim_at db k)
      × (log (append_audit entries db).1 ≡ log db ++ entries)
unfolding append_audit
appended entries db h =
    let plan = first_plan db.plans in
    let (t, r, same) = ended-ok (appending plan entries db.tables) db tt h in
    let (claims, rows) = appending_lem plan entries db.tables t r in
    (λ k. ap (λ u. lookup k u.claims) same ∙ ap (lookup k) claims, ap Tables.audit same ∙ rows)

scanned : (failed : Bool) (o : Option Claim) (c : Claim) → scan_claim failed o ≡ ok c → o ≡ some c
unfolding scan_claim
scanned true none c h = cc
scanned false none c h = cc
scanned true (some x) c h = cc
scanned false (some x) c h = cc

find_hash_lem :
    (hash : String) (claims : List Claim) (c : Claim)
    → find_hash hash claims ≡ some c
    → c.token_hash ≡ hash
unfolding find_hash
find_hash_lem hash [] c h = cc
find_hash_lem hash (claim ∷ claims) c h = elim (Bool-cases (claim.token_hash == hash)) [
  | inl e ↦
      let x = rw e at h in
      let same : claim ≡ c = cc in
      sym (ap Claim.token_hash same) ∙ (eq_iff claim.token_hash hash).0 e
  | inr e ↦ find_hash_lem hash claims c (rw e at h)
]

pub by_subdomain :
    (d : String) (db : Database) (c : Claim)
    → claim_by_subdomain d db ≡ ok c
    → claim_at db d ≡ some c
unfolding claim_by_subdomain
by_subdomain d db c h = scanned db.unreadable (lookup d db.tables.claims) c h

pub by_token_hash :
    (hash : String) (db : Database) (c : Claim)
    → claim_by_token_hash hash db ≡ ok c
    → c.token_hash ≡ hash
unfolding claim_by_token_hash
by_token_hash hash db c h =
    find_hash_lem hash (values db.tables.claims) c (scanned db.unreadable _ c h)

pub not_inserted :
    (c : Claim) (entry : AuditEntry) (db : Database) (e : Error)
    → (insert_claim c entry db).0 ≡ err e
    → ((k : String) → claim_at (insert_claim c entry db).1 k ≡ claim_at db k)
      × (log (insert_claim c entry db).1 ≡ log db)
unfolding insert_claim
not_inserted c entry db e h = kept (inserting (first_plan db.plans) c entry db.tables) db e h

pub not_revoked :
    (d : String) (expected : ℤ) (now : ℕ) (entries : List AuditEntry) (db : Database) (e : Error)
    → (revoke_claim d expected now entries db).0 ≡ err e
    → ((k : String) → claim_at (revoke_claim d expected now entries db).1 k ≡ claim_at db k)
      × (log (revoke_claim d expected now entries db).1 ≡ log db)
unfolding revoke_claim
not_revoked d expected now entries db e h =
    kept (revoking (first_plan db.plans) d expected now entries db.tables) db e h

pub not_appended :
    (entries : List AuditEntry) (db : Database) (e : Error)
    → (append_audit entries db).0 ≡ err e
    → ((k : String) → claim_at (append_audit entries db).1 k ≡ claim_at db k)
      × (log (append_audit entries db).1 ≡ log db)
unfolding append_audit
not_appended entries db e h = kept (appending (first_plan db.plans) entries db.tables) db e h

-- The tables with their transactions are a store that tunnel policy can stand on.
abbrev pub database : Store
database = record {
  State = Database;
  insert_claim = insert_claim;
  claim_by_token_hash = claim_by_token_hash;
  claim_by_subdomain = claim_by_subdomain;
  revoke_claim = revoke_claim;
  append_audit = append_audit;
  list_claims = list_claims;
  claim_at = claim_at;
  log = log;
  by_subdomain = by_subdomain;
  by_token_hash = by_token_hash;
  inserted = inserted;
  not_inserted = not_inserted;
  revoked = revoked;
  not_revoked = not_revoked;
  appended = appended;
  not_appended = not_appended;
}
