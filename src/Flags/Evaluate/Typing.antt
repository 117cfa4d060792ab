-- ===== src/Flags/Evaluate/Typing.antt =====
-- A valid flag evaluates, for every context with a targeting key, to a value of its kind.
use saas_reaper.Base.{
  ℕ, String, ◌≡◌, inl, inr, ap, ◌∙◌, subst, Option, none, some, List, [], ◌∷◌, ◌++◌, ◌==◌, arith,
  ok, All, Bool-cases,
}
use saas_reaper.Base.Map.{Map, lookup}
use saas_reaper.Flags.Flag.{Value, Rule, Rollout, Flag, Kind, Evaluation}
use saas_reaper.Flags.Flag.Validity.{IsFlag, IsDefined, HasKind, IsVariant, IsRule, IsOptional}
use saas_reaper.Flags.Evaluate.{resolve, evaluate}
use saas_reaper.Flags.Evaluate.Soundness.{
  HasTargetingKey, Decides, disabled, targeted, split, static, evaluate-eq-ok_iff, evaluate_total,
}

lookup-HasKind :
    (k : Kind) (m : Map Value) (name : String) (v : Value)
    → All (IsVariant k) m
    → lookup name m ≡ some v
    → HasKind k v
unfolding lookup
lookup-HasKind k [] name v h e = cc
lookup-HasKind k ((j, w) ∷ m) name v h e = elim (Bool-cases (j == name)) [
  | inl here ↦ let x : w ≡ v = ground arith in subst (HasKind k) x h.0.1
  | inr there ↦ lookup-HasKind k m name v h.1 (ground arith)
]

All-middle :
    (P : Rule → Type 0) (before : List Rule) (rule : Rule) (after : List Rule)
    → All P (before ++ rule ∷ after)
    → P rule
All-middle P [] rule after h = h.0
All-middle P (r ∷ before) rule after h = All-middle P before rule after h.1

rollout-IsDefined :
    (f : Flag) (r : Rollout) (o : Option Rollout)
    → o ≡ some r
    → IsOptional f o
    → IsDefined f r.variant
rollout-IsDefined f r none e h = cc
rollout-IsDefined f r (some q) e h =
    let x : q ≡ r = cc in subst (λ (s : Rollout). IsDefined f s.variant) x h.1.1

module _ (sha256 : String → List ℕ) (f : Flag) (context : Map Value) (valid : IsFlag f) where
  Decides-IsDefined :
      (variant reason : String) → Decides sha256 f context variant reason → IsDefined f variant
  Decides-IsDefined variant reason (disabled off v r) = rw v valid.default
  Decides-IsDefined variant reason (targeted before rule after on e miss hit v r) =
      rw v (All-middle (IsRule f) before rule after (subst (All (IsRule f)) e valid.rules)).1.1
  Decides-IsDefined variant reason (split q on miss e isin v r) =
      rw v (rollout-IsDefined f q f.rollout e valid.rollout)
  Decides-IsDefined variant reason (static on miss out v r) = rw v valid.default

  -- For a valid flag and a context with a targeting key the evaluation succeeds; it carries the
  -- flag's key and revision, and a value of the flag's kind that is one of its variants.
  pub evaluate-HasKind :
      HasTargetingKey context
      → (e : Evaluation) × (evaluate sha256 f context ≡ ok e)
        × (e.key ≡ f.key)
        × (e.revision ≡ f.revision)
        × ((v : Value) × (e.value ≡ some v)
            × (lookup e.variant f.variants ≡ some v)
            × HasKind f.kind v)
  unfolding resolve
  evaluate-HasKind key =
      let (e, done) = evaluate_total sha256 f context key in
      let (variant, reason, same, decided) = ((evaluate-eq-ok_iff sha256 f context e).0 done).1 in
      let (v, found) = Decides-IsDefined variant reason decided in
      (
        e,
        done,
        cc (ap (λ (e : Evaluation). e.key) same),
        cc (ap (λ (e : Evaluation). e.revision) same),
        (
          v,
          ap (λ (e : Evaluation). e.value) same ∙ found,
          ap (λ (e : Evaluation). lookup e.variant f.variants) same ∙ found,
          lookup-HasKind f.kind f.variants variant v valid.variants found,
        ),
      )
