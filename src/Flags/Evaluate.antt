-- ===== src/Flags/Evaluate.antt =====
-- internal/flags/evaluate.go: how one definition is resolved for one evaluation context.
-- SHA-256 is the section's parameter: a function from a text, whose bytes it reads, to the bytes
-- of the digest.
pub mod Soundness
pub mod Split
pub mod Typing
use Prim.Native.String
use saas_reaper.Base.{
  ◌≡◌, ◌↔◌, arith, ℕ, ◌+◌, ◌*◌, ◌%◌, ◌^◌, String, Bool, true, false, Option, none, some, List, [],
  ◌∷◌, ◌==◌, ltb, if◌then◌else◌, take, Result, ok, err,
}
use saas_reaper.Base.Map.{Map, lookup}
use saas_reaper.Base.Int64.{to_uint64}
use saas_reaper.Flags.Flag.{
  Error, invalid, Value, bool, text, other, Rule, Rollout, Flag, Evaluation,
}

-- `value, ok := context[attribute].(string)`
as_text : Option Value → Option String
as_text none = none
as_text (some (bool b)) = none
as_text (some (text s)) = some s
as_text (some (other s)) = none

pub text_at : String → Map Value → Option String
unfolding as_text
text_at attribute context = as_text (lookup attribute context)

pub text_at-eq-some :
    (a : String) (context : Map Value) (s : String)
    → (text_at a context ≡ some s) ↔ (lookup a context ≡ some (text s))
unfolding text_at
text_at-eq-some a context s = ground arith

is : Option String → String → Bool
is none s = false
is (some t) s = t == s

unfoldable pub matches : Rule → Map Value → Bool
unfolding text_at is
matches rule context = is (text_at rule.attribute context) rule.equals

unfoldable pub resolve : Flag → String → String → Evaluation
resolve flag variant reason = record {
  key = flag.key;
  value = lookup variant flag.variants;
  reason = reason;
  variant = variant;
  revision = flag.revision;
}

-- binary.BigEndian.Uint64, over the bytes read so far
big_endian : ℕ → List ℕ → ℕ
big_endian n [] = n
big_endian n (b ∷ bs) = big_endian (n * 256 + b) bs

module _ (sha256 : String → List ℕ) where
  bucket : String → String → ℕ
  unfolding big_endian
  bucket key value =
      big_endian 0 (take 8 (sha256 (String.◌++◌ key (String.◌++◌ "\0" value)))) % 10000

  in_bucket : String → Rollout → Option String → Bool
  unfolding bucket
  in_bucket key rollout none = false
  in_bucket key rollout (some value) =
      ltb (bucket key value) (to_uint64 rollout.percentage * 100 % 2 ^ 64)

  unfoldable pub in_rollout : String → Rollout → Map Value → Bool
  unfolding in_bucket text_at
  in_rollout key rollout context = in_bucket key rollout (text_at rollout.attribute context)

  -- what follows the loop over the rules
  evaluate_rollout : Flag → Option Rollout → Map Value → Evaluation
  evaluate_rollout flag none context = resolve flag flag.default_variant "STATIC"
  evaluate_rollout flag (some rollout) context =
      if in_rollout flag.key rollout context
      then resolve flag rollout.variant "SPLIT"
      else resolve flag flag.default_variant "STATIC"

  evaluate_rules : Flag → List Rule → Map Value → Evaluation
  evaluate_rules flag [] context = evaluate_rollout flag flag.rollout context
  evaluate_rules flag (rule ∷ rules) context =
      if matches rule context
      then resolve flag rule.variant "TARGETING_MATCH"
      else evaluate_rules flag rules context

  evaluate_for : Flag → Map Value → Option String → Result Error Evaluation
  evaluate_for flag context none = err invalid
  evaluate_for flag context (some targeting_key) =
      if targeting_key == ""
      then err invalid
      else if flag.enabled
      then ok (evaluate_rules flag flag.rules context)
      else ok (resolve flag flag.default_variant "DISABLED")

  pub evaluate : Flag → Map Value → Result Error Evaluation
  unfolding evaluate_for
  evaluate flag context = evaluate_for flag context (text_at "targetingKey" context)

  -- EvaluateDefinition
  unfoldable pub evaluate_definition : Flag → Map Value → Result Error Evaluation
  evaluate_definition flag context = evaluate flag context
