-- ===== src/Tunnel/Database/Transactions.antt =====
-- What a transaction of specimens/ingress-tunnel/internal/store/sqlite that is committed has written,
-- and that one that fails has written nothing.
use saas_reaper.Base.{
  ℕ, suc, String, ◌≡◌, sym, ap, ◌∙◌, inl, inr, Bool, true, false, not, ◌||◌, Option, none, some,
  List, [], ◌∷◌, ◌++◌, ◌⊎◌, ok, err, unit-then, guard-then, Result-cases, Bool-cases, arith,
  is_some, bind-then,
}
use saas_reaper.Base.Map.{Map, lookup, insert, values, has}
use saas_reaper.Base.Int64.{ℤ, pos, max_int64, inc, eqb_ℤ, eqb_ℤ_iff}
use saas_reaper.Base.Durable.{Plan, first_plan, exec, within, within-ok, ended, ended-ok, ended-err}
use saas_reaper.Tunnel.Lifecycle.{Error, other, AuditEntry}
use saas_reaper.Tunnel.Claim.{Claim}
use saas_reaper.Tunnel.Database.{
  Tables, Database, insert_audit, stored, inserting, updatable, revoking, revoke_claim, appending,
  has_hash,
}
use mathlib.Core.List.{append_assoc, append-nil}

insert_audit_lem :
    (plan : Plan) (n : ℕ) (entries : List AuditEntry) (t after : Tables)
    → insert_audit plan n entries t ≡ ok after
    → (after.claims ≡ t.claims) × (after.audit ≡ t.audit ++ entries)
unfolding insert_audit
insert_audit_lem plan n [] t after h =
    let same : t ≡ after = cc in
    (ap Tables.claims (sym same), ap Tables.audit (sym same) ∙ sym (append-nil t.audit))
insert_audit_lem plan n (entry ∷ entries) t after h =
    let (a, rest) = unit-then (exec (other, t) plan n) _ _ h in
    let grown = record t { audit = t.audit ++ entry ∷ [] } in
    let (claims, rows) = insert_audit_lem plan (suc n) entries grown after rest in
    (claims, rows ∙ append_assoc t.audit (entry ∷ []) entries)

tables-eq :
    (t : Tables) (claims : Map Claim) (rows : List AuditEntry)
    → t.claims ≡ claims
    → t.audit ≡ rows
    → t ≡ record { claims = claims; audit = rows }
tables-eq t claims rows h k = cc

absent : (o : Option Claim) (b : Bool) → not (is_some o || b) ≡ true → o ≡ none
absent o b h = ground arith

-- A row was updated: it was at the expected revision, and active.
updatable_lem :
    (expected : ℤ) (o : Option Claim) (claim : Claim)
    → updatable expected o ≡ ok claim
    → (o ≡ some claim) × (claim.revoked ≡ false) × (claim.revision ≡ expected)
unfolding updatable
updatable_lem expected none claim h = cc
updatable_lem expected (some row) claim h = elim (Bool-cases (eqb_ℤ row.revision expected)) [
  | inl e ↦ elim (Bool-cases row.revoked) [
    | inl f ↦ let x = rw (e, f) at h in cc
    | inr f ↦
        let x = rw (e, f) at h in
        let same : row ≡ claim = cc in
        (
          ap some same,
          ap Claim.revoked (sym same) ∙ f,
          ap Claim.revision (sym same) ∙ (eqb_ℤ_iff row.revision expected).0 e,
        )
  ]
  | inr e ↦ let x = rw e at h in cc
]

pub inserting_lem :
    (plan : Plan) (claim : Claim) (entry : AuditEntry) (t after : Tables)
    → inserting plan claim entry t ≡ ok (tt, after)
    → (lookup claim.subdomain t.claims ≡ none)
      × (after.claims ≡ insert claim.subdomain (stored claim) t.claims)
      × (after.audit ≡ t.audit ++ entry ∷ [])
unfolding inserting has
inserting_lem plan claim entry t after h =
    let (a, h1) = unit-then (exec (other, t) plan 0) _ _ h in
    let (b, h2) = unit-then (exec (other, t) plan 1) _ _ h1 in
    let (free, h3) =
      guard-then
        (not (
          is_some (lookup claim.subdomain t.claims) || has_hash claim.token_hash (values t.claims)))
        _ _ _ h2 in
    let claimed = record t { claims = insert claim.subdomain (stored claim) t.claims } in
    let (audited, rows, h4) = bind-then (insert_audit plan 2 (entry ∷ []) claimed) _ _ h3 in
    let (c, h5) = unit-then (exec (other, audited) plan 3) _ _ h4 in
    let (claims, audit) = insert_audit_lem plan 2 (entry ∷ []) claimed audited rows in
    let same : audited ≡ after = let x = h5 in cc in
    (
      absent (lookup claim.subdomain t.claims) (has_hash claim.token_hash (values t.claims)) free,
      ap Tables.claims (sym same) ∙ claims,
      ap Tables.audit (sym same) ∙ audit,
    )

pub appending_lem :
    (plan : Plan) (entries : List AuditEntry) (t after : Tables)
    → appending plan entries t ≡ ok (tt, after)
    → (after.claims ≡ t.claims) × (after.audit ≡ t.audit ++ entries)
unfolding appending
appending_lem plan entries t after h =
    let (a, h1) = unit-then (exec (other, t) plan 0) _ _ h in
    let (audited, rows, h2) = bind-then (insert_audit plan 2 entries t) _ _ h1 in
    let (c, h3) = unit-then (exec (other, audited) plan 1) _ _ h2 in
    let (claims, audit) = insert_audit_lem plan 2 entries t audited rows in
    let same : audited ≡ after = let x = h3 in cc in
    (ap Tables.claims (sym same) ∙ claims, ap Tables.audit (sym same) ∙ audit)

pub revoking_lem :
    (plan : Plan) (d : String) (expected : ℤ) (now : ℕ) (entries : List AuditEntry)
    (t after : Tables) (c : Claim)
    → revoking plan d expected now entries t ≡ ok (c, after)
    → (old : Claim) × (lookup d t.claims ≡ some old)
      × (old.revoked ≡ false)
      × (old.revision ≡ expected)
      × (c ≡ record old { revoked = true; revision = inc expected; revoked_at = now })
      × (after.claims ≡ insert d c t.claims)
      × (after.audit ≡ t.audit ++ entries)
unfolding revoking
revoking_lem plan d expected now entries t after c h =
    let (a, h1) = unit-then (exec (other, t) plan 0) _ _ h in
    let (b, h2) = unit-then (exec (other, t) plan 1) _ _ h1 in
    let (old, found, h3) = bind-then (within t (updatable expected (lookup d t.claims))) _ _ h2 in
    let changed = record old { revoked = true; revision = inc expected; revoked_at = now } in
    let updated = record t { claims = insert d changed t.claims } in
    let (audited, rows, h4) = bind-then (insert_audit plan 3 entries updated) _ _ h3 in
    let (small, h5) = guard-then (not (eqb_ℤ expected (pos max_int64))) _ _ _ h4 in
    let (e, h6) = unit-then (exec (other, audited) plan 2) _ _ h5 in
    let (claims, audit) = insert_audit_lem plan 3 entries updated audited rows in
    let (here, alive, revision) =
      updatable_lem expected (lookup d t.claims) old (within-ok t _ old found) in
    let same : audited ≡ after = let x = h6 in cc in
    let result : changed ≡ c = let x = h6 in cc in
    (
      old,
      here,
      alive,
      revision,
      sym result,
      ap Tables.claims (sym same) ∙ (claims ∙ ap (λ c. insert d c t.claims) result),
      ap Tables.audit (sym same) ∙ audit,
    )

-- A revocation happens as a whole or not at all: either it fails and the tables are as they were, or
-- it returns the claim, which was active at the expected revision and now is revoked at the next
-- one, the table has that claim at the subdomain, and the rows were appended.
pub revoke_claim_atomic :
    (d : String) (expected : ℤ) (now : ℕ) (entries : List AuditEntry) (db : Database)
    → ((e : Error) × ((revoke_claim d expected now entries db).0 ≡ err e)
        × ((revoke_claim d expected now entries db).1.tables ≡ db.tables))
      ⊎ ((old c : Claim) × ((revoke_claim d expected now entries db).0 ≡ ok c)
          × (lookup d db.tables.claims ≡ some old)
          × (old.revoked ≡ false)
          × (old.revision ≡ expected)
          × (c ≡ record old { revoked = true; revision = inc expected; revoked_at = now })
          × ((revoke_claim d expected now entries db).1.tables ≡ record {
            claims = insert d c db.tables.claims;
            audit = db.tables.audit ++ entries;
          }))
unfolding revoke_claim
revoke_claim_atomic d expected now entries db =
    let plan = first_plan db.plans in
    let work = revoking plan d expected now entries db.tables in
    elim (Result-cases (ended work db).0) [
      | inl (c, e) ↦
          let (t, r, same) = ended-ok work db c e in
          let (old, here, alive, revision, changed, claims, rows) =
            revoking_lem plan d expected now entries db.tables t c r in
          inr (old, c, e, here, alive, revision, changed, same ∙ tables-eq t _ _ claims rows)
      | inr (x, e) ↦ inl (x, e, ended-err work db x e)
    ]
