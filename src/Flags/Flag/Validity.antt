-- ===== src/Flags/Flag/Validity.antt =====
-- What a valid flag definition is, whatever the order of the checks in `Validate` of
-- internal/flags/flag.go, and that `Validate` accepts exactly the valid ones.
use saas_reaper.Base.{
  ℕ, String, ◌≤◌, ◌≡◌, ◌≢◌, ◌↔◌, ◌⊎◌, inl, inr, refl, Bool, true, not, ◌||◌, Option, none, some,
  List, [], ◌∷◌, arith, ◌==◌, eq_iff, is_empty, All, ok, >>_iff, >>_iff_given, guard_iff,
  Option-cases,
}
use saas_reaper.Base.Map.{Map, lookup, has}
use saas_reaper.Base.Text.{codes}
use saas_reaper.Base.Int64.{ℤ, pos, ◌≤ℤ◌, ltb_ℤ}
use saas_reaper.Flags.Flag.{
  Value, bool, text, other, Kind, boolean, string, Rule, Rollout, Flag, is_key_character,
  validate_characters, validate_key, validate_variant, validate_variants, validate_attribute,
  validate_rule, validate_rules, validate_rollout, validate_optional, validate,
}

abbrev pub IsKeyCharacter : ℕ → Type 0
IsKeyCharacter c =
    ((b'a' ≤ c) × (c ≤ b'z'))
    ⊎ ((b'A' ≤ c) × (c ≤ b'Z'))
    ⊎ ((b'0' ≤ c) × (c ≤ b'9'))
    ⊎ (c ≡ b'.')
    ⊎ (c ≡ b'_')
    ⊎ (c ≡ b'-')

abbrev pub IsKey : String → Type 0
IsKey key = (key ≢ "") × All IsKeyCharacter (codes key)

abbrev pub IsDefined : Flag → String → Type 0
IsDefined f variant = (v : Value) × (lookup variant f.variants ≡ some v)

-- The value has the type that the flag's kind names.
abbrev pub HasKind : Kind → Value → Type 0
HasKind kind v =
    ((kind ≡ boolean) × ((b : Bool) × (v ≡ bool b)))
    ⊎ ((kind ≡ string) × ((s : String) × (v ≡ text s)))

abbrev pub IsAllowed : String → Type 0
IsAllowed attribute = (attribute ≡ "organization.id") ⊎ (attribute ≡ "targetingKey")

abbrev pub IsRule : Flag → Rule → Type 0
IsRule f r = IsAllowed r.attribute × ((r.equals ≢ "") × IsDefined f r.variant)

abbrev pub IsRollout : Flag → Rollout → Type 0
IsRollout f r =
    IsAllowed r.attribute
    × (((pos 0 ≤ℤ r.percentage) × (r.percentage ≤ℤ pos 100)) × IsDefined f r.variant)

abbrev pub IsOptional : Flag → Option Rollout → Type 0
IsOptional f none = Unit
IsOptional f (some r) = IsRollout f r

abbrev pub IsVariant : Kind → String × Value → Type 0
IsVariant kind entry = (entry.0 ≢ "") × HasKind kind entry.1

pub record IsFlag (f : Flag) : Type 0 where
  pub key : IsKey f.key
  pub kind : (f.kind ≡ boolean) ⊎ (f.kind ≡ string)
  pub default : IsDefined f f.default_variant
  pub variants : All (IsVariant f.kind) f.variants
  pub rules : All (IsRule f) f.rules
  pub rollout : IsOptional f f.rollout

is_key_character_iff : (c : ℕ) → (is_key_character c ≡ true) ↔ IsKeyCharacter c
unfolding is_key_character
is_key_character_iff c = ground arith

validate_characters_iff : (cs : List ℕ) → (validate_characters cs ≡ ok tt) ↔ All IsKeyCharacter cs
unfolding validate_characters
validate_characters_iff [] = (λ h. tt, λ h. refl)
validate_characters_iff (c ∷ cs) =
    ground (arith, is_key_character_iff c, validate_characters_iff cs)

pub validate_key_iff : (key : String) → (validate_key key ≡ ok tt) ↔ IsKey key
unfolding validate_key
validate_key_iff key = ground (arith, eq_iff key "", validate_characters_iff (codes key))

has_iff :
    {V : Type 0} (k : String) (m : Map V) → (has k m ≡ true) ↔ ((v : V) × (lookup k m ≡ some v))
unfolding has
has_iff k m = elim (Option-cases (lookup k m)) [
  | inl e ↦ rw e (λ h. cc, λ h. cc)
  | inr (v, e) ↦ (λ h. (v, e), λ h. rw e)
]

validate_attribute_iff : (a : String) → (validate_attribute a ≡ ok tt) ↔ IsAllowed a
unfolding validate_attribute has lookup
validate_attribute_iff a = ground (arith, eq_iff "organization.id" a, eq_iff "targetingKey" a)

validate_variant_iff :
    (kind : Kind) (name : String) (v : Value)
    → (kind ≡ boolean) ⊎ (kind ≡ string)
    → (validate_variant kind name v ≡ ok tt) ↔ IsVariant kind (name, v)
unfolding validate_variant
validate_variant_iff kind name (bool b) h =
    ground (arith, eq_iff name "", eq_iff kind boolean, eq_iff kind string, eq_iff boolean string)
validate_variant_iff kind name (text s) h =
    ground (arith, eq_iff name "", eq_iff kind boolean, eq_iff kind string, eq_iff boolean string)
validate_variant_iff kind name (other s) h =
    ground (arith, eq_iff name "", eq_iff kind boolean, eq_iff kind string, eq_iff boolean string)

validate_variants_iff :
    (kind : Kind) (m : Map Value)
    → (kind ≡ boolean) ⊎ (kind ≡ string)
    → (validate_variants kind m ≡ ok tt) ↔ All (IsVariant kind) m
unfolding validate_variants
validate_variants_iff kind [] h = (λ e. tt, λ e. refl)
validate_variants_iff kind ((name, v) ∷ m) h =
    >>_iff (validate_variant_iff kind name v h) (validate_variants_iff kind m h)

not_blank_iff : (s : String) → (not (s == "") ≡ true) ↔ (s ≢ "")
not_blank_iff s = ground (arith, eq_iff s "")

validate_rule_iff : (f : Flag) (r : Rule) → (validate_rule f r ≡ ok tt) ↔ IsRule f r
unfolding validate_rule
validate_rule_iff f r =
    >>_iff (validate_attribute_iff r.attribute) (
      >>_iff (guard_iff _ _ (not_blank_iff r.equals))
        (guard_iff _ _ (has_iff r.variant f.variants)))

validate_rules_iff : (f : Flag) (rs : List Rule) → (validate_rules f rs ≡ ok tt) ↔ All (IsRule f) rs
unfolding validate_rules
validate_rules_iff f [] = (λ e. tt, λ e. refl)
validate_rules_iff f (r ∷ rs) = >>_iff (validate_rule_iff f r) (validate_rules_iff f rs)

percentage_iff :
    (p : ℤ) → (not (ltb_ℤ p (pos 0) || ltb_ℤ (pos 100) p) ≡ true) ↔ ((pos 0 ≤ℤ p) × (p ≤ℤ pos 100))
percentage_iff p = ground arith

validate_optional_iff :
    (f : Flag) (r : Option Rollout) → (validate_optional f r ≡ ok tt) ↔ IsOptional f r
unfolding validate_optional validate_rollout
validate_optional_iff f none = (λ e. tt, λ e. refl)
validate_optional_iff f (some r) = >>_iff (validate_attribute_iff r.attribute) (
    >>_iff (guard_iff _ _ (percentage_iff r.percentage))
      (guard_iff _ _ (has_iff r.variant f.variants)))

-- The checks, in the order in which `validate` makes them.
abbrev Checks : Flag → Type 0
Checks f =
    IsKey f.key
    × (((f.kind ≡ boolean) ⊎ (f.kind ≡ string))
        × ((f.variants ≢ [])
            × (IsDefined f f.default_variant
                × (All (IsVariant f.kind) f.variants
                    × (All (IsRule f) f.rules × IsOptional f f.rollout)))))

kind_iff : (k : Kind) → ((k == boolean || k == string) ≡ true) ↔ ((k ≡ boolean) ⊎ (k ≡ string))
kind_iff k = ground (arith, eq_iff k boolean, eq_iff k string)

not_empty_iff : (m : Map Value) → (not (is_empty m) ≡ true) ↔ (m ≢ [])
not_empty_iff m = ground arith

Checks-iff : (f : Flag) → (validate f ≡ ok tt) ↔ Checks f
unfolding validate
Checks-iff f = >>_iff (validate_key_iff f.key) (
    >>_iff_given (guard_iff _ _ (kind_iff f.kind)) (λ k.
      >>_iff (guard_iff _ _ (not_empty_iff f.variants)) (
        >>_iff (guard_iff _ _ (has_iff f.default_variant f.variants)) (
          >>_iff (validate_variants_iff f.kind f.variants k)
            (>>_iff (validate_rules_iff f f.rules) (validate_optional_iff f f.rollout))))))

not-nil_of_IsDefined : (f : Flag) (name : String) → IsDefined f name → f.variants ≢ []
unfolding lookup
not-nil_of_IsDefined f name (v, e) h = let e' = rw h at e in cc

-- `validate` accepts a flag exactly if it is valid: its key is not empty and has only letters,
-- digits and `._-`, its kind is boolean or string, its default variant is defined, each variant
-- has a name and a value of the kind, each rule compares an allowed attribute with a value that is
-- not empty and picks a defined variant, and the rollout, if there is one, is on an allowed
-- attribute, at 0 to 100 percent, for a defined variant.
pub validate-eq-ok_iff : (f : Flag) → (validate f ≡ ok tt) ↔ IsFlag f
validate-eq-ok_iff f = (
  λ h.
      let c = (Checks-iff f).0 h in
      record {
        key = c.0;
        kind = c.1.0;
        default = c.1.1.1.0;
        variants = c.1.1.1.1.0;
        rules = c.1.1.1.1.1.0;
        rollout = c.1.1.1.1.1.1;
      },
  λ v. (Checks-iff f).1 (
    v.key,
    (
      v.kind,
      (
        not-nil_of_IsDefined f f.default_variant v.default,
        (v.default, (v.variants, (v.rules, v.rollout))),
      ),
    ),
  ),
)
