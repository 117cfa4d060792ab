-- ===== src/Tunnel/Agent/Target.antt =====
-- specimens/ingress-tunnel/internal/agent/agent.go: the local target of an agent, and the forwarded
-- headers that a request is passed on to it with.
use saas_reaper.Base.{
  String, ◌≡◌, refl, ◌∙◌, inl, inr, Bool, false, not, ◌||◌, Option, none, some, List, [], ◌∷◌, ◌==◌,
  eq_iff, if◌then◌else◌, Result, ◌>>◌, guard, Bool-cases,
}
use saas_reaper.Base.Map.{Map, lookup, insert, delete, lookup-insert, lookup-delete}

pub record Target : Type 0 where
  pub scheme : String
  pub host : String

pub data TargetError : Type 0 where
  bad_scheme no_host : TargetError

-- The checks of `New`.
pub validate_target : Target → Result TargetError (Unit {0})
validate_target target = do
  guard (target.scheme == "http" || target.scheme == "https") bad_scheme
  guard (not (target.host == "")) no_host

-- `Del`, and `Add` of each value that came in.
put_values : String → Option (List String) → Map (List String) → Map (List String)
put_values name none out = delete name out
put_values name (some []) out = delete name out
put_values name (some (value ∷ values)) out = insert name (value ∷ values) (delete name out)

forward_names : List String → Map (List String) → Map (List String) → Map (List String)
unfolding put_values
forward_names [] inbound out = out
forward_names (name ∷ names) inbound out =
    forward_names names inbound (put_values name (lookup name inbound) out)

abbrev pub triple : List String
triple = "X-Forwarded-For" ∷ "X-Forwarded-Host" ∷ "X-Forwarded-Proto" ∷ []

-- The headers of `rewriteTo`; the address of the request becomes that of the target.
pub rewrite_to : Map (List String) → Map (List String) → Map (List String)
unfolding forward_names
rewrite_to inbound out = forward_names triple inbound out

-- A header without values is one that is not there.
abbrev pub present : Option (List String) → Option (List String)
present none = none
present (some []) = none
present (some (value ∷ values)) = some (value ∷ values)

lookup-put_values :
    (name read : String) (o : Option (List String)) (out : Map (List String))
    → lookup read (put_values name o out) ≡ (if name == read then present o else lookup read out)
unfolding put_values
lookup-put_values name read none out = lookup-delete name read out
lookup-put_values name read (some []) out = lookup-delete name read out
lookup-put_values name read (some (v ∷ vs)) out =
    rw (lookup-insert name read (v ∷ vs) (delete name out), lookup-delete name read out)
      (elim (Bool-cases (name == read)) [ inl e ↦ rw e refl | inr e ↦ rw e refl ])

abbrev pub is_named : String → List String → Bool
is_named read [] = false
is_named read (name ∷ names) = name == read || is_named read names

lookup-forward_names :
    (read : String) (names : List String) (inbound out : Map (List String))
    → lookup read (forward_names names inbound out)
      ≡ (if is_named read names then present (lookup read inbound) else lookup read out)
unfolding forward_names
lookup-forward_names read [] inbound out = refl
lookup-forward_names read (name ∷ names) inbound out =
    lookup-forward_names read names inbound (put_values name (lookup name inbound) out)
    ∙ rw (lookup-put_values name read (lookup name inbound) out) (elim (Bool-cases (name == read)) [
      | inl e ↦
          let same = (eq_iff name read).0 e in
          rw (e, same)
            (elim (Bool-cases (is_named read names)) [ inl n ↦ rw n refl | inr n ↦ rw n refl ])
      | inr e ↦ rw e refl
    ])

-- The target sees of the forwarded triple what came in over the tunnel, and of every other header what
-- the standard proxy passes on.
lookup-rewrite_to :
    (read : String) (inbound out : Map (List String))
    → lookup read (rewrite_to inbound out)
      ≡ (if is_named read triple then present (lookup read inbound) else lookup read out)
unfolding rewrite_to
lookup-rewrite_to read inbound out = lookup-forward_names read triple inbound out
