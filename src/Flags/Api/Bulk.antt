-- ===== src/Flags/Api/Bulk.antt =====
-- The evaluation of a whole environment by internal/api/evaluate.go.
use saas_reaper.Base.{
  String, ◌≡◌, ◌≢◌, refl, sym, ap, subst, inl, inr, Option, none, some, List, [], ◌∷◌, ◌==◌, eq_iff,
  Result, ok, err, arith, Bool-cases,
}
use saas_reaper.Base.Map.{Map, lookup}
use saas_reaper.Flags.Flag.{
  Error, conflict, invalid, not_found, Value, text, bool, Flag, Evaluation,
}
use saas_reaper.Flags.Evaluate.{evaluate_definition}
use saas_reaper.Flags.Evaluate.Soundness.{HasTargetingKey, evaluate_total}
use saas_reaper.Flags.Authority.{Authority}
use saas_reaper.Flags.Service.{Service}
use saas_reaper.Flags.Service
use saas_reaper.Flags.Api.Routes.{
  Wire, Response, evaluations_reply, EvaluationResult, success, only_value,
}
use saas_reaper.Flags.Api.Ofrep.{
  read_targeting_key, context_of, read_evaluation_request, result_of, results, quoted,
  write_evaluation_error, evaluate_listed, evaluate_flags, evaluate_all_context, evaluate_all,
}

read_targeting_key-ok :
    (key : String) (context read : Map Value) (o : Option Value)
    → read_targeting_key key context o ≡ ok read
    → (read ≡ context) × ((s : String) × (o ≡ some (text s)) × (s ≢ ""))
unfolding read_targeting_key
read_targeting_key-ok key context read none h = cc
read_targeting_key-ok key context read (some (text s)) h = elim (Bool-cases (s == "")) [
  | inl e ↦ let x = rw e at h in cc
  | inr e ↦ let x = rw e at h in (cc, (s, refl, λ y. let z = (eq_iff s "").1 y in cc))
]
read_targeting_key-ok key context read (some (bool b)) h = cc
read_targeting_key-ok key context read (some (Value.other s)) h = cc

write_evaluation_error-≢-200 :
    (key : String) (e : Error) → (write_evaluation_error key e).status ≢ 200
unfolding write_evaluation_error
write_evaluation_error-≢-200 key conflict h = omega (arith, h)
write_evaluation_error-≢-200 key invalid h = omega (arith, h)
write_evaluation_error-≢-200 key not_found h = omega (arith, h)
write_evaluation_error-≢-200 key Error.other h = omega (arith, h)

read_targeting_key-err :
    (key : String) (context : Map Value) (o : Option Value) (r : Response)
    → read_targeting_key key context o ≡ err r
    → r.status ≡ 400
unfolding read_targeting_key
read_targeting_key-err key context none r h = cc
read_targeting_key-err key context (some (text s)) r h = elim (Bool-cases (s == "")) [
  | inl e ↦ let x = rw e at h in cc
  | inr e ↦ let x = rw e at h in cc
]
read_targeting_key-err key context (some (bool b)) r h = cc
read_targeting_key-err key context (some (Value.other s)) r h = cc

module _ (wire : Wire) (authority : Authority) where
  open wire use {Bytes, decode_evaluation, sha256}

  context_of-ok :
      (key : String) (o : Option (Map Value)) (context : Map Value)
      → context_of wire key o ≡ ok context
      → (o ≡ some context) × HasTargetingKey context
  unfolding context_of
  context_of-ok key none context h = cc
  context_of-ok key (some read) context h =
      let (same, found) = read_targeting_key-ok key read context (lookup "targetingKey" read) h in
      (ap some (sym same), subst HasTargetingKey (sym same) found)

  context_of-err :
      (key : String) (o : Option (Map Value)) (r : Response)
      → context_of wire key o ≡ err r
      → r.status ≡ 400
  unfolding context_of
  context_of-err key none r h = cc
  context_of-err key (some read) r h =
      read_targeting_key-err key read (lookup "targetingKey" read) r h

  -- There is one result for each definition, in their order, and it is its evaluation.
  abbrev pub AllEvaluated : Map Value → List Flag → List EvaluationResult → Type 0
  AllEvaluated context [] [] = Unit
  AllEvaluated context (f ∷ fs) (r ∷ rs) =
      ((e : Evaluation) × (evaluate_definition sha256 f context ≡ ok e) × (r ≡ success e))
      × AllEvaluated context fs rs
  AllEvaluated context fs rs = ⊥

  results-AllEvaluated :
      (context : Map Value) (flags : List Flag)
      → HasTargetingKey context
      → AllEvaluated context flags (results wire authority context flags)
  unfolding results result_of evaluate_definition
  results-AllEvaluated context [] key = tt
  results-AllEvaluated context (f ∷ fs) key =
      let (e, evaluates) = evaluate_total sha256 f context key in
      ((e, evaluates, rw evaluates refl), results-AllEvaluated context fs key)

  module _ (environment if_none_match : String) (body : Bytes) (s : Service authority) where
    abbrev pub Complete : Map Value → Response → Type 0
    Complete context r =
        (flags : List Flag) × (Service.list_flags authority environment s ≡ ok flags)
        × ((rs : List EvaluationResult) × (version : String) × (r.reply
              ≡ evaluations_reply rs version)
            × (r.etag ≡ quoted wire version)
            × AllEvaluated context flags rs)

    listed-Complete :
        (context : Map Value) (flags : List Flag) (o : Option String)
        → HasTargetingKey context
        → Service.list_flags authority environment s ≡ ok flags
        → (evaluate_listed wire authority if_none_match context flags o).status ≡ 200
        → Complete context (evaluate_listed wire authority if_none_match context flags o)
    unfolding evaluate_listed
    listed-Complete context flags none key e h = absurd (omega (arith, h))
    listed-Complete context flags (some version) key e h =
        elim (Bool-cases (if_none_match == quoted wire version)) [
          | inl m ↦ let x = rw m at h in absurd (omega (arith, x))
          | inr m ↦ rw m (
            flags,
            e,
            (
              results wire authority context flags,
              version,
              refl,
              refl,
              results-AllEvaluated context flags key,
            ),
          )
        ]

    flags-Complete :
        (context : Map Value) (r : Result Error (List Flag))
        → HasTargetingKey context
        → Service.list_flags authority environment s ≡ r
        → (evaluate_flags wire authority if_none_match context r).status ≡ 200
        → Complete context (evaluate_flags wire authority if_none_match context r)
    unfolding evaluate_flags
    flags-Complete context (err x) key e h = absurd (write_evaluation_error-≢-200 "" x h)
    flags-Complete context (ok flags) key e h = listed-Complete context flags _ key e h

    context-Complete :
        (r : Result Response (Map Value))
        → context_of wire "" (only_value wire (decode_evaluation body)) ≡ r
        → (evaluate_all_context wire authority environment if_none_match r s).status ≡ 200
        → (context : Map Value) × (only_value wire (decode_evaluation body) ≡ some context)
          × HasTargetingKey context
          × Complete context (evaluate_all_context wire authority environment if_none_match r s)
    unfolding evaluate_all_context
    context-Complete (err response) e h =
        let x = context_of-err "" _ response e in absurd (omega (arith, x, h))
    context-Complete (ok context) e h =
        let (read, key) = context_of-ok "" _ context e in
        (context, read, key, flags-Complete context _ key refl h)

    -- A bulk evaluation that answers with status 200 was asked with one JSON value, a context that
    -- has a targeting key that is a text and not empty. The answer has, for each definition of the
    -- environment and in their order, its evaluation for that context; none is a failure. The ETag
    -- is the version in quotes.
    pub bulk_answers :
        (evaluate_all wire authority environment if_none_match body s).status ≡ 200
        → (context : Map Value) × (only_value wire (decode_evaluation body) ≡ some context)
          × HasTargetingKey context
          × Complete context (evaluate_all wire authority environment if_none_match body s)
    unfolding evaluate_all read_evaluation_request
    bulk_answers h = context-Complete _ refl h
