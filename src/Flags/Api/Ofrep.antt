-- ===== src/Flags/Api/Ofrep.antt =====
-- internal/api/evaluate.go: evaluating one flag, or all of an environment.
use saas_reaper.Base.{
  String, Option, none, some, List, [], ◌∷◌, ◌==◌, if◌then◌else◌, Result, ok, err,
}
use Prim.Native.String
use mathlib.Core.Option
use saas_reaper.Base.Map.{Map, lookup}
use saas_reaper.Flags.Flag.{Error, invalid, not_found, Value, text, Flag, Evaluation}
use saas_reaper.Flags.Evaluate.{evaluate_definition}
use saas_reaper.Flags.Authority.{Authority}
use saas_reaper.Flags.Service.{Service}
use saas_reaper.Flags.Service
use saas_reaper.Flags.Api.Routes.{
  Wire, EvaluationResult, success, failure, internal, no_content, evaluation_reply,
  evaluations_reply, Response, write_json, only_value,
}

unfoldable pub write_evaluation_error : String → Error → Response
write_evaluation_error key not_found =
    write_json 404 (evaluation_reply (failure key "FLAG_NOT_FOUND"))
write_evaluation_error key invalid =
    write_json 400 (evaluation_reply (failure key "INVALID_CONTEXT"))
write_evaluation_error key e = write_json 500 internal

-- What is tested of the targeting key of a context.
unfoldable pub read_targeting_key : String → Map Value → Option Value → Result Response (Map Value)
read_targeting_key key context none =
    err (write_json 400 (evaluation_reply (failure key "TARGETING_KEY_MISSING")))
read_targeting_key key context (some (text value)) =
    if value == ""
    then err (write_json 400 (evaluation_reply (failure key "INVALID_CONTEXT")))
    else ok context
read_targeting_key key context (some value) =
    err (write_json 400 (evaluation_reply (failure key "INVALID_CONTEXT")))

unfoldable pub result_of : Flag → Result Error Evaluation → EvaluationResult
result_of flag (ok evaluated) = success evaluated
result_of flag (err e) = failure flag.key "GENERAL"

module _ (wire : Wire) where
  open wire use {Bytes, decode_evaluation, print, marshal, sha256, hex}

  unfoldable pub context_of : String → Option (Map Value) → Result Response (Map Value)
  unfolding read_targeting_key
  context_of key none = err (write_json 400 (evaluation_reply (failure key "INVALID_CONTEXT")))
  context_of key (some context) = read_targeting_key key context (lookup "targetingKey" context)

  unfoldable pub read_evaluation_request : Bytes → String → Result Response (Map Value)
  unfolding context_of only_value
  read_evaluation_request body key = context_of key (only_value wire (decode_evaluation body))

  unfoldable pub listed_lines : List Flag → String
  listed_lines [] = ""
  listed_lines (flag ∷ flags) =
      String.◌++◌ flag.key (
        String.◌++◌ ":" (String.◌++◌ (print flag.revision) (String.◌++◌ "\0" (listed_lines flags))))

  -- The digits of `evaluationETag`. They stand between quotes in the header, and have none of their
  -- own, so that `strings.Trim` of the header gives them back.
  unfoldable pub version_of : List Flag → Map Value → Option String
  unfolding listed_lines
  version_of listed context =
      Option.map (λ encoded. hex (sha256 (String.◌++◌ (listed_lines listed) encoded)))
        (marshal context)

  abbrev pub quoted : String → String
  quoted version = String.◌++◌ "\"" (String.◌++◌ version "\"")

  module _ (authority : Authority) where
    unfoldable pub evaluated : String → Result Error Evaluation → Response
    evaluated key (ok evaluation) = write_json 200 (evaluation_reply (success evaluation))
    evaluated key (err e) = write_evaluation_error key e

    unfoldable pub evaluate_context :
        String → String → Result Response (Map Value) → Service authority → Response
    unfolding evaluated
    evaluate_context environment key (err response) s = response
    evaluate_context environment key (ok context) s =
        evaluated key (Service.evaluate authority sha256 environment key context s)

    unfoldable pub evaluate : String → String → Bytes → Service authority → Response
    unfolding evaluate_context read_evaluation_request
    evaluate environment key body s =
        evaluate_context environment key (read_evaluation_request body key) s

    unfoldable pub results : Map Value → List Flag → List EvaluationResult
    unfolding result_of
    results context [] = []
    results context (flag ∷ flags) =
        result_of flag (evaluate_definition sha256 flag context) ∷ results context flags

    unfoldable pub evaluate_listed : String → Map Value → List Flag → Option String → Response
    unfolding results
    evaluate_listed if_none_match context flags none = write_json 500 internal
    evaluate_listed if_none_match context flags (some version) =
        if if_none_match == quoted version
        then record { status = 304; etag = quoted version; reply = no_content }
        else record {
          status = 200;
          etag = quoted version;
          reply = evaluations_reply (results context flags) version;
        }

    unfoldable pub evaluate_flags : String → Map Value → Result Error (List Flag) → Response
    unfolding evaluate_listed version_of
    evaluate_flags if_none_match context (err e) = write_evaluation_error "" e
    evaluate_flags if_none_match context (ok flags) =
        evaluate_listed if_none_match context flags (version_of flags context)

    unfoldable pub evaluate_all_context :
        String → String → Result Response (Map Value) → Service authority → Response
    unfolding evaluate_flags
    evaluate_all_context environment if_none_match (err response) s = response
    evaluate_all_context environment if_none_match (ok context) s =
        evaluate_flags if_none_match context (Service.list_flags authority environment s)

    unfoldable pub evaluate_all : String → String → Bytes → Service authority → Response
    unfolding evaluate_all_context read_evaluation_request
    evaluate_all environment if_none_match body s =
        evaluate_all_context environment if_none_match (read_evaluation_request body "") s
