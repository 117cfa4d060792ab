-- ===== src/Flags/Evaluate/Soundness.antt =====
-- What an evaluation returns, against a description of it that names no loop.
use mathlib.Core.List.{append-nil, append_assoc}
use saas_reaper.Base.{
  All-append, ℕ, String, ◌≡◌, ◌≢◌, ◌↔◌, inl, inr, refl, sym, ap, ◌∙◌, Bool, true, false, Option,
  none, some, List, [], ◌∷◌, ◌++◌, eq_iff, arith, if◌then◌else◌, ok, All, Bool-cases, Option-cases,
}
use saas_reaper.Base.Map.{Map, lookup}
use saas_reaper.Flags.Flag.{Value, text, Rule, Rollout, Flag, Evaluation}
use saas_reaper.Flags.Evaluate.{
  text_at-eq-some, text_at, is, matches, resolve, in_rollout, evaluate_rollout, evaluate_rules,
  evaluate,
}

-- The context has a targeting key that is a text and not empty.
abbrev pub HasTargetingKey : Map Value → Type 0
HasTargetingKey context = (s : String) × (lookup "targetingKey" context ≡ some (text s)) × (s ≢ "")

-- The context's value of the rule's attribute is the text that the rule asks for.
abbrev pub Matches : Map Value → Rule → Type 0
Matches context rule = lookup rule.attribute context ≡ some (text rule.equals)

abbrev pub Misses : Map Value → Rule → Type 0
Misses context rule = ¬ Matches context rule

is_iff : (o : Option String) (s : String) → (is o s ≡ true) ↔ (o ≡ some s)
unfolding is
is_iff none s = ground arith
is_iff (some t) s = ground (arith, eq_iff t s)

matches_iff :
    (rule : Rule) (context : Map Value) → (matches rule context ≡ true) ↔ Matches context rule
unfolding matches
matches_iff rule context =
    let e = text_at-eq-some rule.attribute context rule.equals in
    let k = is_iff (text_at rule.attribute context) rule.equals in
    (λ h. e.0 (k.0 h), λ h. k.1 (e.1 h))

module _ (sha256 : String → List ℕ) (f : Flag) (context : Map Value) where
  abbrev pub IsIn : Rollout → Type 0
  IsIn r = in_rollout sha256 f.key r context ≡ true

  -- Which variant a flag gives, and the reason: the default of a disabled flag; else the variant
  -- of the first rule that matches; else that of the rollout, if the context is in it; else the
  -- default.
  pub data Decides (variant reason : String) : Type 0 where
    disabled :
        f.enabled ≡ false
        → variant ≡ f.default_variant
        → reason ≡ "DISABLED"
        → Decides variant reason
    targeted :
        (before : List Rule) (rule : Rule) (after : List Rule)
        → f.enabled ≡ true
        → f.rules ≡ before ++ rule ∷ after
        → All (Misses context) before
        → Matches context rule
        → variant ≡ rule.variant
        → reason ≡ "TARGETING_MATCH"
        → Decides variant reason
    split :
        (r : Rollout)
        → f.enabled ≡ true
        → All (Misses context) f.rules
        → f.rollout ≡ some r
        → IsIn r
        → variant ≡ r.variant
        → reason ≡ "SPLIT"
        → Decides variant reason
    static :
        f.enabled ≡ true
        → All (Misses context) f.rules
        → ((r : Rollout) → f.rollout ≡ some r → ¬ IsIn r)
        → variant ≡ f.default_variant
        → reason ≡ "STATIC"
        → Decides variant reason

  abbrev Outcome : Evaluation → Type 0
  Outcome e =
      (variant : String) × (reason : String) × (e ≡ resolve f variant reason)
      × Decides variant reason

  rollout-Outcome :
      (o : Option Rollout)
      → f.enabled ≡ true
      → All (Misses context) f.rules
      → f.rollout ≡ o
      → Outcome (evaluate_rollout sha256 f o context)
  unfolding evaluate_rollout
  rollout-Outcome none on miss e =
      (f.default_variant, "STATIC", refl, static on miss (λ r h. let x = sym e ∙ h in cc) refl refl)
  rollout-Outcome (some r) on miss e = elim (Bool-cases (in_rollout sha256 f.key r context)) [
    | inl h ↦ (r.variant, "SPLIT", rw h, split r on miss e h refl refl)
    | inr h ↦ (f.default_variant, "STATIC", rw h, static on miss (λ q k isin. cc) refl refl)
  ]

  -- What the loop over the rules, and what follows it, returns.
  rules-Outcome :
      (before rules : List Rule)
      → f.enabled ≡ true
      → f.rules ≡ before ++ rules
      → All (Misses context) before
      → Outcome (evaluate_rules sha256 f rules context)
  unfolding evaluate_rules
  rules-Outcome before [] on e miss = rollout-Outcome f.rollout on (rw (e, append-nil) miss) refl
  rules-Outcome before (rule ∷ rules) on e miss = elim (Bool-cases (matches rule context)) [
    | inl hit ↦ (
      rule.variant,
      "TARGETING_MATCH",
      rw hit,
      targeted before rule rules on e miss ((matches_iff rule context).0 hit) refl refl,
    )
    | inr missed ↦ rw missed (
        rules-Outcome (before ++ rule ∷ []) rules on
          (e ∙ sym (append_assoc before (rule ∷ []) rules))
          (All-append (Misses context) before (rule ∷ []) miss
            ((λ hit. let m = (matches_iff rule context).1 hit in cc), tt)))
  ]

  rules-missed :
      (rules : List Rule)
      → All (Misses context) rules
      → evaluate_rules sha256 f rules context ≡ evaluate_rollout sha256 f f.rollout context
  unfolding evaluate_rules
  rules-missed [] miss = refl
  rules-missed (rule ∷ rules) miss =
      ground (arith, matches_iff rule context, rules-missed rules miss.1)

  rules-hit :
      (before : List Rule) (rule : Rule) (after : List Rule)
      → All (Misses context) before
      → Matches context rule
      → evaluate_rules sha256 f (before ++ rule ∷ after) context
        ≡ resolve f rule.variant "TARGETING_MATCH"
  unfolding evaluate_rules
  rules-hit [] rule after miss hit = rw ((matches_iff rule context).1 hit)
  rules-hit (r ∷ before) rule after miss hit =
      ground (arith, matches_iff r context, rules-hit before rule after miss.1 hit)

  abbrev body : Bool → Evaluation
  body enabled =
      if enabled
      then evaluate_rules sha256 f f.rules context
      else resolve f f.default_variant "DISABLED"

  body-Outcome : (enabled : Bool) → f.enabled ≡ enabled → Outcome (body enabled)
  body-Outcome true on = rules-Outcome [] f.rules on refl tt
  body-Outcome false off = (f.default_variant, "DISABLED", refl, disabled off refl refl)

  left_out :
      ((r : Rollout) → f.rollout ≡ some r → ¬ IsIn r)
      → evaluate_rollout sha256 f f.rollout context ≡ resolve f f.default_variant "STATIC"
  unfolding evaluate_rollout
  left_out out = elim (Option-cases f.rollout) [
    | inl e ↦ simp (e, evaluate_rollout)
    | inr (q, e) ↦ simp (e, evaluate_rollout) (ground (arith, out q e))
  ]

  Decides-body :
      (variant reason : String) → Decides variant reason → body f.enabled ≡ resolve f variant reason
  unfolding evaluate_rollout
  Decides-body variant reason (disabled off v r) = cc (ap body off)
  Decides-body variant reason (targeted before rule after on e miss hit v r) =
      cc (ap body on, rules-hit before rule after miss hit)
  Decides-body variant reason (split q on miss e isin v r) =
      let taken : evaluate_rollout sha256 f (some q) context ≡ resolve f q.variant "SPLIT" =
        ground arith in
      cc (ap body on, rules-missed f.rules miss, taken)
  Decides-body variant reason (static on miss out v r) =
      cc (ap body on, rules-missed f.rules miss, left_out out)

  -- The evaluation of a context that has a targeting key.
  evaluate_keyed : HasTargetingKey context → evaluate sha256 f context ≡ ok (body f.enabled)
  unfolding evaluate
  evaluate_keyed (s, e, h) =
      rw ((text_at-eq-some "targetingKey" context s).1 e) (ground (arith, eq_iff s ""))

  HasTargetingKey-of_ok :
      (e : Evaluation) → evaluate sha256 f context ≡ ok e → HasTargetingKey context
  unfolding evaluate
  HasTargetingKey-of_ok e h = elim (Option-cases (text_at "targetingKey" context)) [
    | inl k ↦ let x = rw k at h in cc
    | inr (s, k) ↦ (
      s,
      (text_at-eq-some "targetingKey" context s).0 k,
      let x = rw k at h in ground (arith, eq_iff s ""),
    )
  ]

  pub evaluate-eq-ok_iff :
      (e : Evaluation)
      → (evaluate sha256 f context ≡ ok e) ↔ (
          HasTargetingKey context
          × ((variant : String) × (reason : String) × (e ≡ resolve f variant reason)
              × Decides variant reason))
  evaluate-eq-ok_iff e = (
    λ h.
        let key = HasTargetingKey-of_ok e h in
        let (variant, reason, same, decided) = body-Outcome f.enabled refl in
        (key, (variant, reason, let x = evaluate_keyed key in cc, decided)),
    λ (key, (variant, reason, same, decided)).
        let x = Decides-body variant reason decided in let y = evaluate_keyed key in cc,
  )

  pub evaluate_total :
      HasTargetingKey context → (e : Evaluation) × (evaluate sha256 f context ≡ ok e)
  evaluate_total key = (body f.enabled, evaluate_keyed key)
