-- ===== src/Flags/Flag.antt =====
-- internal/flags/flag.go and internal/flags/context.go: a flag definition and its validation.
-- An error is the class that `errors.Is` sees; its text is left out.
pub mod Validity
pub mod Copy
use saas_reaper.Base.{
  ℕ, String, Bool, true, false, not, ◌&&◌, ◌||◌, Option, none, some, List, [], ◌∷◌, ◌==◌, leb, eqb,
  if◌then◌else◌, is_empty, Result, ok, err, ◌>>◌, ◌>>=◌, guard,
}
use saas_reaper.Base.Map.{Map, lookup, insert, has}
use saas_reaper.Base.Text.{codes}
use saas_reaper.Base.Int64.{ℤ, pos, ltb_ℤ}

-- `other` is for errors of no class: those of the database, of decoding, of the transport.
pub data Error : Type 0 where
  conflict invalid not_found other : Error

-- What `any` holds after JSON decoding. The code tests only for a bool and a string; the rest
-- (null, numbers, arrays, objects) is named by its text.
pub data Value : Type 0 where
  bool : Bool → Value
  text : String → Value
  other : String → Value

abbrev pub Kind : Type 0
Kind = String

abbrev pub boolean : Kind
boolean = "boolean"

abbrev pub string : Kind
string = "string"

pub record Rule : Type 0 where
  pub attribute : String
  pub equals : String
  pub variant : String

pub record Rollout : Type 0 where
  pub attribute : String
  pub percentage : ℤ
  pub variant : String

-- Times are numbers of nanoseconds.
pub record Flag : Type 0 where
  pub key : String
  pub kind : Kind
  pub enabled : Bool
  pub default_variant : String
  pub variants : Map Value
  pub rules : List Rule
  pub rollout : Option Rollout
  pub revision : ℤ
  pub updated_at : ℕ

-- `value` is `none` for the nil of a variant that is not defined.
pub record Evaluation : Type 0 where
  pub key : String
  pub value : Option Value
  pub reason : String
  pub variant : String
  pub revision : ℤ

pub record AuditEntry : Type 0 where
  pub sequence : ℤ
  pub environment : String
  pub key : String
  pub revision : ℤ
  pub actor : String
  pub action : String
  pub occurred_at : ℕ

-- `strings.ContainsRune("._-", char)` is the last line.
unfoldable pub is_key_character : ℕ → Bool
is_key_character c =
    if leb b'a' c && leb c b'z'
    then true
    else if leb b'A' c && leb c b'Z'
    then true
    else if leb b'0' c && leb c b'9'
    then true
    else eqb c b'.' || eqb c b'_' || eqb c b'-'

validate_characters : List ℕ → Result Error (Unit {0})
unfolding is_key_character
validate_characters [] = ok tt
validate_characters (c ∷ cs) = if is_key_character c then validate_characters cs else err invalid

unfoldable pub validate_key : String → Result Error (Unit {0})
unfolding validate_characters
validate_key key = if key == "" then err invalid else validate_characters (codes key)

is_bool : Value → Bool
is_bool (bool b) = true
is_bool v = false

is_text : Value → Bool
is_text (text s) = true
is_text v = false

validate_variant : Kind → String → Value → Result Error (Unit {0})
unfolding is_bool is_text
validate_variant kind name value =
    if name == ""
    then err invalid
    else if kind == boolean
    then guard (is_bool value) invalid
    else if kind == string
    then guard (is_text value) invalid
    else ok tt

validate_variants : Kind → Map Value → Result Error (Unit {0})
validate_variants kind [] = ok tt
validate_variants kind ((name, value) ∷ m) = do
  validate_variant kind name value
  validate_variants kind m

abbrev pub allowed_attributes : Map (Unit {0})
allowed_attributes = ("organization.id", tt) ∷ ("targetingKey", tt) ∷ []

validate_attribute : String → Result Error (Unit {0})
unfolding has
validate_attribute attribute = guard (has attribute allowed_attributes) invalid

validate_rule : Flag → Rule → Result Error (Unit {0})
validate_rule f r = do
  validate_attribute r.attribute
  guard (not (r.equals == "")) invalid
  guard (has r.variant f.variants) invalid

validate_rules : Flag → List Rule → Result Error (Unit {0})
validate_rules f [] = ok tt
validate_rules f (r ∷ rs) = do validate_rule f r; validate_rules f rs

validate_rollout : Flag → Rollout → Result Error (Unit {0})
validate_rollout f r = do
  validate_attribute r.attribute
  guard (not (ltb_ℤ r.percentage (pos 0) || ltb_ℤ (pos 100) r.percentage)) invalid
  guard (has r.variant f.variants) invalid

validate_optional : Flag → Option Rollout → Result Error (Unit {0})
validate_optional f none = ok tt
validate_optional f (some r) = validate_rollout f r

unfoldable pub validate : Flag → Result Error (Unit {0})
unfolding validate_variant validate_variants validate_rule validate_rules validate_rollout
    validate_optional validate_attribute
validate f = do
  validate_key f.key
  guard (f.kind == boolean || f.kind == string) invalid
  guard (not (is_empty f.variants)) invalid
  guard (has f.default_variant f.variants) invalid
  validate_variants f.kind f.variants
  validate_rules f f.rules
  validate_optional f f.rollout

-- The loop of `Copy` over the variants; `copied` is the new map.
copy_variants : Map Value → Map Value → Map Value
unfolding insert
copy_variants copied [] = copied
copy_variants copied ((key, value) ∷ m) = copy_variants (insert key value copied) m

unfoldable pub copy : Flag → Flag
unfolding copy_variants
copy f = record f { variants = copy_variants [] f.variants }
