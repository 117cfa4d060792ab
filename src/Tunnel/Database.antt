-- ===== src/Tunnel/Database.antt =====
-- specimens/ingress-tunnel/internal/store/sqlite/claims.go and audit.go: the tables that hold the
-- claims and the audit rows, and the transactions over them.
pub mod Transactions
pub mod Laws
use saas_reaper.Base.{
  ℕ, suc, String, ◌≡◌, refl, Bool, true, false, not, ◌&&◌, ◌||◌, Option, none, some, List, [], ◌∷◌,
  ◌++◌, reverse, take, ◌==◌, eqb, ltb, if◌then◌else◌, Result, ok, err, ◌>>=◌, ◌>>◌, guard,
}
use saas_reaper.Base.Map.{Map, lookup, insert, values, has}
use saas_reaper.Base.Int64.{ℤ, pos, max_int64, inc, eqb_ℤ}
use saas_reaper.Base.Durable.{Plan, Durable, first_plan, exec, within, ended}
use saas_reaper.Base.Sort.{less, sort_by}
use saas_reaper.Tunnel.Lifecycle.{Error, conflict, not_found, other, AuditEntry}
use saas_reaper.Tunnel.Claim.{Claim}

-- The claims by subdomain, their primary key, and the rows, oldest first.
pub record Tables : Type 0 where
  pub claims : Map Claim
  pub audit : List AuditEntry

abbrev pub Database : Type 0
Database = Durable Tables

-- Each row that was inserted is there when a later statement fails, until the transaction ends.
insert_audit : Plan → ℕ → List AuditEntry → Tables → Result (Error × Tables) Tables
unfolding exec
insert_audit plan n [] t = ok t
insert_audit plan n (entry ∷ entries) t = do
  exec (other, t) plan n
  insert_audit plan (suc n) entries (record t { audit = t.audit ++ entry ∷ [] })

abbrev pub stored : Claim → Claim
stored claim = record claim { revoked = false; revoked_at = 0 }

has_hash : String → List Claim → Bool
has_hash hash [] = false
has_hash hash (claim ∷ claims) = claim.token_hash == hash || has_hash hash claims

-- The transaction of `InsertClaim`: begin, insert, the audit row, commit.
pub inserting : Plan → Claim → AuditEntry → Tables → Result (Error × Tables) (Unit {0} × Tables)
unfolding exec insert_audit has_hash
inserting plan claim entry t = do
  exec (other, t) plan 0
  exec (other, t) plan 1
  guard (not (has claim.subdomain t.claims || has_hash claim.token_hash (values t.claims)))
      (conflict, t)
  let claimed = record t { claims = insert claim.subdomain (stored claim) t.claims }
  audited ← insert_audit plan 2 (entry ∷ []) claimed
  exec (other, audited) plan 3
  ok (tt, audited)

unfoldable pub insert_claim : Claim → AuditEntry → Database → Result Error (Unit {0}) × Database
unfolding inserting ended
insert_claim claim entry db = ended (inserting (first_plan db.plans) claim entry db.tables) db

scan_claim : Bool → Option Claim → Result Error Claim
scan_claim failed none = if failed then err other else err not_found
scan_claim failed (some claim) = if failed then err other else ok claim

find_hash : String → List Claim → Option Claim
find_hash hash [] = none
find_hash hash (claim ∷ claims) =
    if claim.token_hash == hash then some claim else find_hash hash claims

unfoldable pub claim_by_token_hash : String → Database → Result Error Claim
unfolding scan_claim find_hash
claim_by_token_hash hash db = scan_claim db.unreadable (find_hash hash (values db.tables.claims))

unfoldable pub claim_by_subdomain : String → Database → Result Error Claim
unfolding scan_claim
claim_by_subdomain subdomain db = scan_claim db.unreadable (lookup subdomain db.tables.claims)

-- WHERE revision = ? AND revoked = 0
updatable : ℤ → Option Claim → Result Error Claim
updatable expected none = err conflict
updatable expected (some claim) =
    if eqb_ℤ claim.revision expected && not claim.revoked then ok claim else err conflict

-- The transaction of `RevokeClaim`: begin, update, the audit rows, the claim read back, commit. An
-- integer of SQLite that overflows becomes a real number, which cannot be read back as a revision.
pub revoking :
    Plan → String → ℤ → ℕ → List AuditEntry → Tables → Result (Error × Tables) (Claim × Tables)
unfolding exec updatable insert_audit
revoking plan subdomain expected now entries t = do
  exec (other, t) plan 0
  exec (other, t) plan 1
  claim ← within t (updatable expected (lookup subdomain t.claims))
  let changed = record claim { revoked = true; revision = inc expected; revoked_at = now }
  audited ← insert_audit plan 3 entries (record t { claims = insert subdomain changed t.claims })
  guard (not (eqb_ℤ expected (pos max_int64))) (other, audited)
  exec (other, audited) plan 2
  ok (changed, audited)

unfoldable pub revoke_claim :
    String → ℤ → ℕ → List AuditEntry → Database → Result Error Claim × Database
unfolding revoking ended
revoke_claim subdomain expected now entries db =
    ended (revoking (first_plan db.plans) subdomain expected now entries db.tables) db

-- The transaction of `AppendAudit`: begin, commit (the statement 1), and the rows between them.
pub appending : Plan → List AuditEntry → Tables → Result (Error × Tables) (Unit {0} × Tables)
unfolding exec insert_audit
appending plan entries t = do
  exec (other, t) plan 0
  audited ← insert_audit plan 2 entries t
  exec (other, audited) plan 1
  ok (tt, audited)

unfoldable pub append_audit : List AuditEntry → Database → Result Error (Unit {0}) × Database
unfolding appending ended
append_audit entries db = ended (appending (first_plan db.plans) entries db.tables) db

-- ORDER BY created_at, subdomain
created_before : Claim → Claim → Bool
created_before a b =
    ltb a.created_at b.created_at || (eqb a.created_at b.created_at && less a.subdomain b.subdomain)

unfoldable pub list_claims : Database → Result Error (List Claim)
unfolding created_before
list_claims db =
    if db.unreadable then err other else ok (sort_by created_before (values db.tables.claims))

-- The newest rows, at most `limit` of them; a negative LIMIT is none.
unfoldable pub audit : ℤ → Database → Result Error (List AuditEntry)
audit (pos limit) db =
    if db.unreadable then err other else ok (take limit (reverse db.tables.audit))
audit limit db = if db.unreadable then err other else ok (reverse db.tables.audit)
