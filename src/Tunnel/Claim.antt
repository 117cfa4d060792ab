-- ===== src/Tunnel/Claim.antt =====
-- specimens/ingress-tunnel/internal/tunnel/claim.go: the grammar of a subdomain and the agent
-- credential. The base64 codec and SHA-256 are parameters of what uses them.
pub mod Grammar
use Prim.Native.String
use saas_reaper.Base.{
  ℕ, String, Bool, true, false, not, ◌&&◌, ◌||◌, Option, none, some, List, [], ◌∷◌, ◌==◌, leb, ltb,
  eqb, length, if◌then◌else◌, Result, ok, err, ◌>>=◌, ◌>>◌, guard, is_some,
}
use saas_reaper.Base.Map.{Map, lookup, has}
use saas_reaper.Base.Text.{codes, starts_with_code, ends_with_code, after_prefix}
use saas_reaper.Base.Int64.{ℤ}
use saas_reaper.Tunnel.Lifecycle.{
  Error, invalid, unauthorized, ClaimState, claim_active, claim_revoked,
}

-- Times are numbers of nanoseconds, 0 the zero time.
pub record Claim : Type 0 where
  pub subdomain : String
  pub token_hash : String
  pub revision : ℤ
  pub revoked : Bool
  pub created_at : ℕ
  pub revoked_at : ℕ

-- Claim.State
unfoldable pub state : Claim → ClaimState
state c = if c.revoked then claim_revoked else claim_active

abbrev pub token_prefix : String
token_prefix = "rtk_"

abbrev pub token_bytes : ℕ
token_bytes = 32

abbrev pub max_label_length : ℕ
max_label_length = 63

abbrev pub reserved_subdomains : Map (Unit {0})
reserved_subdomains = ("www", tt) ∷ ("control", tt) ∷ ("admin", tt) ∷ ("api", tt) ∷ []

unfoldable pub label_rune : ℕ → Bool
label_rune r =
    if leb b'a' r && leb r b'z' then true else if leb b'0' r && leb r b'9' then true else eqb r b'-'

validate_runes : List ℕ → Result Error (Unit {0})
unfolding label_rune
validate_runes [] = ok tt
validate_runes (r ∷ rs) = if label_rune r then validate_runes rs else err invalid

unfoldable pub validate_label : String → Result Error (Unit {0})
unfolding validate_runes
validate_label label = do
  guard (not (label == "" || ltb max_label_length (String.len label))) invalid
  guard (not (starts_with_code b'-' (codes label) || ends_with_code b'-' (codes label))) invalid
  validate_runes (codes label)

unfoldable pub validate_subdomain : String → Result Error (Unit {0})
unfolding validate_label has
validate_subdomain subdomain = do
  validate_label subdomain
  guard (not (has subdomain reserved_subdomains)) invalid

module _ (encode : List ℕ → String) where
  -- The random bytes, or the error of reading them.
  unfoldable pub new_token : Result Error (List ℕ) → Result Error String
  new_token raw = raw >>= λ bytes. ok (String.◌++◌ token_prefix (encode bytes))

module _ (decode : String → Option (List ℕ)) where
  -- `err == nil && len(raw) == tokenBytes`
  is_token_body : Option (List ℕ) → Bool
  is_token_body none = false
  is_token_body (some raw) = eqb (length raw) token_bytes

  validate_body : Option String → Result Error (Unit {0})
  unfolding is_token_body
  validate_body none = err unauthorized
  validate_body (some body) = guard (is_token_body (decode body)) unauthorized

  unfoldable pub validate_token : String → Result Error (Unit {0})
  unfolding validate_body
  validate_token token = validate_body (after_prefix token token_prefix)
