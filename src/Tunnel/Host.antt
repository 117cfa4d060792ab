-- ===== src/Tunnel/Host.antt =====
-- specimens/ingress-tunnel/internal/tunnel/host.go: which tunnel a Host header names. `split_host`
-- is the host of `net.SplitHostPort`, `none` for its error, and `to_lower` is `strings.ToLower`.
use Prim.Native.String
use Prim.Native.Char.{Char}
use text.Mathlib.TextLemmas.{nil-append, cons-append}
use saas_reaper.Base.{
  ℕ, ◌≡◌, refl, ap, sym, subst, inl, inr, ◌∙◌, String, Bool, true, false, not, ◌||◌, Option, none,
  some, List, [], ◌∷◌, ◌==◌, eq_iff, eqb, if◌then◌else◌, Result, ok, err, Bool-cases,
}
use saas_reaper.Base.Text.{codes}
use saas_reaper.Tunnel.Lifecycle.{Error}
use saas_reaper.Tunnel.Claim.{validate_label}
use saas_reaper.Tunnel.Claim.Grammar.{IsLabel, IsLabel-iff}

has_code : ℕ → List ℕ → Bool
has_code c [] = false
has_code c (d ∷ ds) = if eqb d c then true else has_code c ds

prepend : Char → Option String → Option String
prepend c none = none
prepend c (some s) = some (String.◌∷◌ c s)

-- What stands before the suffix `t` of `s`; `none` if `s` does not end in `t`.
before_suffix : String → String → Option String
unfolding prepend
before_suffix String.[] t = if String.[] == t then some String.[] else none
before_suffix (String.◌∷◌ c s) t =
    let rest = before_suffix s t in if String.◌∷◌ c s == t then some String.[] else prepend c rest

or_whole : String → Option String → String
or_whole s none = s
or_whole s (some r) = r

-- strings.TrimSuffix(s, ".")
trim_dot : String → String
unfolding or_whole before_suffix
trim_dot s = or_whole s (before_suffix s ".")

is_ok : Result Error (Unit {0}) → Bool
is_ok (ok u) = true
is_ok (err e) = false

label_of : Option String → Option String
unfolding has_code is_ok
label_of none = none
label_of (some label) =
    if label == "" || has_code b'.' (codes label)
    then none
    else if is_ok (validate_label label)
    then some label
    else none

module _ (split_host : String → Option String) (to_lower : String → String) where
  host_without_port : String → String
  unfolding has_code or_whole
  host_without_port host =
      if not (has_code b':' (codes host)) then host else or_whole host (split_host host)

  pub host_name : String → String
  unfolding host_without_port trim_dot
  host_name host = to_lower (trim_dot (host_without_port host))

  pub domain_suffix : String → String
  unfolding trim_dot
  domain_suffix domain = String.◌++◌ "." (to_lower (trim_dot domain))

  unfoldable pub host_subdomain : String → String → Option String
  unfolding label_of before_suffix host_name domain_suffix
  host_subdomain host domain = label_of (before_suffix (host_name host) (domain_suffix domain))

prepend-some :
    (c : Char) (o : Option String) (x : String)
    → prepend c o ≡ some x
    → (r : String) × (o ≡ some r) × (x ≡ String.◌∷◌ c r)
unfolding prepend
prepend-some c none x h = cc
prepend-some c (some r) x h = (r, refl, cc)

before_suffix-some : (s t x : String) → before_suffix s t ≡ some x → s ≡ String.◌++◌ x t
unfolding before_suffix
before_suffix-some String.[] t x h = elim (Bool-cases (String.[] == t)) [
  | inl e ↦
      let y = rw e at h in
      let nothing : x ≡ String.[] = cc in rw nothing ((eq_iff String.[] t).0 e ∙ sym (nil-append t))
  | inr e ↦ let y = rw e at h in cc
]
before_suffix-some (String.◌∷◌ c s) t x h = elim (Bool-cases (String.◌∷◌ c s == t)) [
  | inl e ↦
      let y = rw e at h in
      let nothing : x ≡ String.[] = cc in
      rw nothing ((eq_iff (String.◌∷◌ c s) t).0 e ∙ sym (nil-append t))
  | inr e ↦
      let (r, found, whole) = prepend-some c (before_suffix s t) x (rw e at h) in
      rw whole (ap (String.◌∷◌ c) (before_suffix-some s t r found) ∙ sym (cons-append c r t))
]

is_ok-true : (r : Result Error (Unit {0})) → is_ok r ≡ true → r ≡ ok tt
unfolding is_ok
is_ok-true (ok u) h = refl
is_ok-true (err e) h = cc

label_of-some :
    (o : Option String) (label : String)
    → label_of o ≡ some label
    → (o ≡ some label) × IsLabel label
unfolding label_of
label_of-some none label h = cc
label_of-some (some l) label h = elim (Bool-cases (l == "" || has_code b'.' (codes l))) [
  | inl e ↦ let y = rw e at h in cc
  | inr e ↦ elim (Bool-cases (is_ok (validate_label l))) [
    | inl f ↦
        let y = rw (e, f) at h in
        let same : l ≡ label = cc in
        (ap some same, subst IsLabel same ((IsLabel-iff l).0 (is_ok-true (validate_label l) f)))
    | inr f ↦ let y = rw (e, f) at h in cc
  ]
]

-- A host that names a tunnel names exactly one label below the domain: without its port and a final
-- dot and in lower case it is the label, a dot and the domain, and the label is well formed.
pub host_subdomain-some :
    (split_host : String → Option String) (to_lower : String → String) (host domain label : String)
    → host_subdomain split_host to_lower host domain ≡ some label
    → IsLabel label
      × (host_name split_host to_lower host
          ≡ String.◌++◌ label (domain_suffix split_host to_lower domain))
unfolding host_subdomain
host_subdomain-some split_host to_lower host domain label h =
    let (found, good) = label_of-some _ label h in
    (
      good,
      before_suffix-some (host_name split_host to_lower host)
          (domain_suffix split_host to_lower domain) label found,
    )
