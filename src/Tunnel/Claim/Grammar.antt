-- ===== src/Tunnel/Claim/Grammar.antt =====
-- The subdomains that `ValidateSubdomain` of specimens/ingress-tunnel/internal/tunnel/claim.go
-- accepts, whatever the order of its checks.
use Prim.Native.String
use saas_reaper.Base.{
  ℕ, ◌≤◌, String, ◌≡◌, ◌≢◌, ◌↔◌, ◌⊎◌, refl, Bool, true, false, not, ◌||◌, List, [], ◌∷◌, ◌==◌,
  eq_iff, ltb, arith, All, ok, guard, >>_iff,
}
use saas_reaper.Base.Map.{has, lookup}
use saas_reaper.Base.Text.{codes, starts_with_code, ends_with_code}
use saas_reaper.Tunnel.Lifecycle.{invalid}
use saas_reaper.Tunnel.Claim.{
  reserved_subdomains, max_label_length, label_rune, validate_runes, validate_label,
  validate_subdomain,
}

abbrev pub IsLabelRune : ℕ → Type 0
IsLabelRune r = ((b'a' ≤ r) × (r ≤ b'z')) ⊎ ((b'0' ≤ r) × (r ≤ b'9')) ⊎ (r ≡ b'-')

-- A DNS label in lower case, of at most 63 bytes, that does not begin or end with a hyphen.
pub record IsLabel (d : String) : Type 0 where
  pub not_empty : d ≢ ""
  pub short : String.len d ≤ 63
  pub begins : starts_with_code b'-' (codes d) ≡ false
  pub ends : ends_with_code b'-' (codes d) ≡ false
  pub runes : All IsLabelRune (codes d)

abbrev pub IsReserved : String → Type 0
IsReserved d = (d ≡ "www") ⊎ (d ≡ "control") ⊎ (d ≡ "admin") ⊎ (d ≡ "api")

label_rune_iff : (r : ℕ) → (label_rune r ≡ true) ↔ IsLabelRune r
unfolding label_rune
label_rune_iff r = ground arith

validate_runes_iff : (rs : List ℕ) → (validate_runes rs ≡ ok tt) ↔ All IsLabelRune rs
unfolding validate_runes
validate_runes_iff [] = (λ h. tt, λ h. refl)
validate_runes_iff (r ∷ rs) = ground (arith, label_rune_iff r, validate_runes_iff rs)

size_iff :
    (d : String)
    → (guard (not (d == "" || ltb max_label_length (String.len d))) invalid ≡ ok tt)
      ↔ ((d ≢ "") × (String.len d ≤ 63))
size_iff d = ground (arith, eq_iff d "")

hyphens_iff : (b e : Bool) → (guard (not (b || e)) invalid ≡ ok tt) ↔ ((b ≡ false) × (e ≡ false))
hyphens_iff b e = ground arith

pub IsLabel-iff : (d : String) → (validate_label d ≡ ok tt) ↔ IsLabel d
unfolding validate_label
IsLabel-iff d =
    let (to, from) = >>_iff (size_iff d) (
      >>_iff (hyphens_iff (starts_with_code b'-' (codes d)) (ends_with_code b'-' (codes d)))
        (validate_runes_iff (codes d))) in
    (
      λ h.
          let ((ne, size), ((b, e), rs)) = to h in
          record { not_empty = ne; short = size; begins = b; ends = e; runes = rs },
      λ l. from ((l.not_empty, l.short), ((l.begins, l.ends), l.runes)),
    )

IsReserved-iff :
    (d : String) → (guard (not (has d reserved_subdomains)) invalid ≡ ok tt) ↔ ¬ IsReserved d
unfolding has lookup
IsReserved-iff d =
    ground (arith, eq_iff "www" d, eq_iff "control" d, eq_iff "admin" d, eq_iff "api" d)

-- A subdomain is accepted exactly if it is a label of lower-case letters, digits and hyphens, of at
-- most 63 bytes, with no hyphen at its ends, and none of the reserved names.
pub validate_subdomain_iff :
    (d : String) → (validate_subdomain d ≡ ok tt) ↔ (IsLabel d × (¬ IsReserved d))
unfolding validate_subdomain
validate_subdomain_iff d = >>_iff (IsLabel-iff d) (IsReserved-iff d)
