-- ===== src/Tunnel/Store.antt =====
-- The `Store` interface of specimens/ingress-tunnel/internal/tunnel/tunnels.go: the durable
-- authority that tunnel policy consumes, as operations over a state, and what policy relies on:
-- every write is one transaction, which happens as a whole or not at all.
use saas_reaper.Base.{
  ℕ, String, ◌≡◌, true, false, Option, none, some, List, [], ◌∷◌, ◌++◌, ◌==◌, if◌then◌else◌, Result,
  ok, err,
}
use saas_reaper.Base.Int64.{ℤ, inc}
use saas_reaper.Tunnel.Lifecycle.{Error, AuditEntry}
use saas_reaper.Tunnel.Claim.{Claim}

pub record Store : Type 1 where
  pub State : Type 0
  pub insert_claim : Claim → AuditEntry → State → Result Error (Unit {0}) × State
  pub claim_by_token_hash : String → State → Result Error Claim
  pub claim_by_subdomain : String → State → Result Error Claim
  pub revoke_claim : String → ℤ → ℕ → List AuditEntry → State → Result Error Claim × State
  pub append_audit : List AuditEntry → State → Result Error (Unit {0}) × State
  pub list_claims : State → Result Error (List Claim)
  -- the claim of a subdomain, and the log, oldest row first
  pub claim_at : State → String → Option Claim
  pub log : State → List AuditEntry
  pub by_subdomain :
      (d : String) (s : State) (c : Claim) → claim_by_subdomain d s ≡ ok c → claim_at s d ≡ some c
  pub by_token_hash :
      (h : String) (s : State) (c : Claim) → claim_by_token_hash h s ≡ ok c → c.token_hash ≡ h
  -- a claim is inserted where there is none
  pub inserted :
      (c : Claim) (entry : AuditEntry) (s : State)
      → (insert_claim c entry s).0 ≡ ok tt
      → (claim_at s c.subdomain ≡ none)
        × ((d : String)
            → claim_at (insert_claim c entry s).1 d ≡ (
                if c.subdomain == d
                then some (record c { revoked = false; revoked_at = 0 })
                else claim_at s d))
        × (log (insert_claim c entry s).1 ≡ log s ++ entry ∷ [])
  pub not_inserted :
      (c : Claim) (entry : AuditEntry) (s : State) (e : Error)
      → (insert_claim c entry s).0 ≡ err e
      → ((d : String) → claim_at (insert_claim c entry s).1 d ≡ claim_at s d)
        × (log (insert_claim c entry s).1 ≡ log s)
  -- an active claim at the expected revision is revoked
  pub revoked :
      (d : String) (expected : ℤ) (now : ℕ) (entries : List AuditEntry) (s : State) (c : Claim)
      → (revoke_claim d expected now entries s).0 ≡ ok c
      → (old : Claim) × (claim_at s d ≡ some old)
        × (old.revoked ≡ false)
        × (old.revision ≡ expected)
        × (c ≡ record old { revoked = true; revision = inc expected; revoked_at = now })
        × ((k : String)
            → claim_at (revoke_claim d expected now entries s).1 k
              ≡ (if d == k then some c else claim_at s k))
        × (log (revoke_claim d expected now entries s).1 ≡ log s ++ entries)
  pub not_revoked :
      (d : String) (expected : ℤ) (now : ℕ) (entries : List AuditEntry) (s : State) (e : Error)
      → (revoke_claim d expected now entries s).0 ≡ err e
      → ((k : String) → claim_at (revoke_claim d expected now entries s).1 k ≡ claim_at s k)
        × (log (revoke_claim d expected now entries s).1 ≡ log s)
  pub appended :
      (entries : List AuditEntry) (s : State)
      → (append_audit entries s).0 ≡ ok tt
      → ((k : String) → claim_at (append_audit entries s).1 k ≡ claim_at s k)
        × (log (append_audit entries s).1 ≡ log s ++ entries)
  pub not_appended :
      (entries : List AuditEntry) (s : State) (e : Error)
      → (append_audit entries s).0 ≡ err e
      → ((k : String) → claim_at (append_audit entries s).1 k ≡ claim_at s k)
        × (log (append_audit entries s).1 ≡ log s)
