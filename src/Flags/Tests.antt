-- ===== src/Flags/Tests.antt =====
-- The theorems of the flag service at concrete inputs: one flag, published twice to the in-process
-- store. The hash is a stand-in that gives the runes of the text.
use saas_reaper.Base.{
  String, ◌≡◌, ◌↔◌, refl, true, false, ◌&&◌, some, List, [], ◌∷◌, ◌++◌, ◌==◌, if◌then◌else◌, Result,
  ok, err, arith,
}
use saas_reaper.Base.Map.{Map, has, lookup, nested, insert}
use saas_reaper.Base.Text.{codes}
use saas_reaper.Base.Int64.{ℤ, pos, ◌≤ℤ◌, inc, to_uint64}
use saas_reaper.Flags.Flag.{
  Error, conflict, Value, bool, text, boolean, Rollout, Flag, Evaluation, copy, validate,
  validate_key,
}
use saas_reaper.Flags.Flag.Validity.{IsFlag, HasKind, validate-eq-ok_iff}
use saas_reaper.Flags.Evaluate.{in_rollout, evaluate}
use saas_reaper.Flags.Evaluate.Soundness.{HasTargetingKey}
use saas_reaper.Flags.Evaluate.Typing.{evaluate-HasKind}
use saas_reaper.Flags.Evaluate.Split.{in_rollout_mono}
use saas_reaper.Flags.Snapshot.{Snapshot, new_memory, put, shown}
use saas_reaper.Flags.Authority.{revision_of, next_revision, entry_of}
use saas_reaper.Flags.Memory.{Store, new}
use saas_reaper.Flags.Memory
use saas_reaper.Flags.Memory.Laws.{memory}
use saas_reaper.Flags.Memory.Restore.{IsStore}
use saas_reaper.Flags.Service.{Service, publish, admit, validate_environment}
use saas_reaper.Flags.Service.Publish.{IsAdmissible, publish-eq-ok}
use saas_reaper.Flags.Service.Convergence.{IsSettled, projection_converges, projection_never_ahead}
use saas_reaper.Flags.Service.Convergence.Interleaving.{
  Config, commit, project, Steps, unmoved, after_step,
}

abbrev toggle : Flag
toggle = record {
  key = "checkout";
  kind = boolean;
  enabled = true;
  default_variant = "off";
  variants = ("off", bool false) ∷ ("on", bool true) ∷ [];
  rules = record { attribute = "organization.id"; equals = "acme"; variant = "on" } ∷ [];
  rollout = some (record { attribute = "targetingKey"; percentage = pos 25; variant = "on" });
  revision = pos 0;
  updated_at = 0;
}

abbrev first_revision : Flag
first_revision = record toggle { revision = pos 1; updated_at = 10 }

abbrev second_revision : Flag
second_revision = record toggle { revision = pos 2; updated_at = 20 }

abbrev visitor : Map Value
visitor = ("targetingKey", text "ann") ∷ ("organization.id", text "acme") ∷ []

abbrev service : Service memory
unfolding memory
service = record { store = new; snapshot = new_memory }

abbrev published_once : Result Error Flag × Service memory
published_once = publish memory 10 "prod" toggle (pos 0) "ann" service

published_first : published_once.0 ≡ ok first_revision
unfolding publish memory Memory.publish admit validate_environment validate validate_key copy nested
    lookup insert has inc
published_first = refl

published_stale : (publish memory 20 "prod" toggle (pos 7) "ann" published_once.1).0 ≡ err conflict
unfolding publish memory Memory.publish admit validate_environment validate validate_key copy nested
    lookup insert has inc
published_stale = refl

-- Two publications, projected in the reverse order.
abbrev store_one : Store
store_one = (Memory.publish 10 "prod" toggle (pos 0) "ann" new).1

abbrev store_two : Store
store_two = (Memory.publish 20 "prod" toggle (pos 1) "bob" store_one).1

abbrev entry : Flag → String × Flag
entry g = ("prod", g)

abbrev config : Store → Snapshot → List (String × Flag) → Config memory
unfolding memory
config store snapshot pending = record { store = store; snapshot = snapshot; pending = pending }

abbrev last_snapshot : Snapshot
last_snapshot = put "prod" first_revision (put "prod" second_revision new_memory)

new-IsStore : IsStore new
new-IsStore = record { environments = tt; each = tt }

empty-IsSettled : IsSettled memory (config new new_memory [])
unfolding memory config Memory.stored shown nested lookup
empty-IsSettled = record { pending = refl; valid = new-IsStore; same = λ e k. refl }

race : Steps memory (config new new_memory []) (config store_two last_snapshot [])
unfolding memory config Memory.publish nested lookup insert copy inc
race =
    after_step
      {d = config store_two (put "prod" second_revision new_memory) (entry first_revision ∷ [])}
      (after_step
        {d = config store_two new_memory (entry second_revision ∷ entry first_revision ∷ [])}
        (after_step {d = config store_one new_memory (entry first_revision ∷ [])}
          (after_step {d = config new new_memory []} unmoved
            (commit 10 "prod" toggle (pos 0) "ann" first_revision refl (omega arith) refl))
          (commit 20 "prod" toggle (pos 1) "bob" second_revision refl (omega arith) refl))
        (project [] "prod" second_revision (entry first_revision ∷ []) refl refl))
      (project [] "prod" first_revision [] refl refl)

projection_converges_example :
    shown last_snapshot "prod" "checkout" ≡ Memory.stored store_two "prod" "checkout"
unfolding memory config
projection_converges_example =
    projection_converges memory empty-IsSettled race refl "prod" "checkout"

shows_second : shown last_snapshot "prod" "checkout" ≡ some second_revision
unfolding shown put nested lookup insert copy
shows_second = refl

projection_never_ahead_example :
    (second_revision.key ≡ "checkout")
    × ((g : Flag) × (Memory.stored store_two "prod" "checkout" ≡ some g)
        × (second_revision.revision ≤ℤ g.revision)
        × (second_revision.revision ≡ g.revision → second_revision ≡ g))
unfolding memory config
projection_never_ahead_example =
    projection_never_ahead memory empty-IsSettled race "prod" "checkout" second_revision
      shows_second

publish-eq-ok_example :
    IsAdmissible "prod" toggle (pos 0) "ann"
    × (revision_of (Memory.stored new "prod" "checkout") ≡ pos 0)
    × (first_revision ≡ next_revision 10 toggle (pos 0))
    × ((e k : String)
        → memory.stored published_once.1.store e k ≡ (
            if "prod" == e && "checkout" == k
            then some first_revision
            else memory.stored service.store e k))
    × ((n : ℤ) × (memory.log published_once.1.store
          ≡ memory.log service.store ++ entry_of n "prod" first_revision "ann" ∷ []))
unfolding memory
publish-eq-ok_example =
    publish-eq-ok memory 10 "prod" toggle (pos 0) "ann" service first_revision new-IsStore
      published_first

validate-eq-ok_iff_example : (validate toggle ≡ ok tt) ↔ IsFlag toggle
validate-eq-ok_iff_example = validate-eq-ok_iff toggle

toggle-valid : validate toggle ≡ ok tt
unfolding validate validate_key has lookup
toggle-valid = refl

toggle-IsFlag : IsFlag toggle
toggle-IsFlag = (validate-eq-ok_iff toggle).0 toggle-valid

visitor_keyed : HasTargetingKey visitor
unfolding lookup
visitor_keyed = ("ann", refl, λ e. cc)

evaluate-HasKind_example :
    (e : Evaluation) × (evaluate codes toggle visitor ≡ ok e)
    × (e.key ≡ "checkout")
    × (e.revision ≡ pos 0)
    × ((v : Value) × (e.value ≡ some v)
        × (lookup e.variant toggle.variants ≡ some v)
        × HasKind boolean v)
evaluate-HasKind_example = evaluate-HasKind codes toggle visitor toggle-IsFlag visitor_keyed

abbrev quarter : Rollout
quarter = record { attribute = "targetingKey"; percentage = pos 25; variant = "on" }

in_at_ninety : in_rollout codes "checkout" (record quarter { percentage = pos 90 }) visitor ≡ true
unfolding in_rollout lookup to_uint64
in_at_ninety = refl

in_rollout_mono_example :
    in_rollout codes "checkout" (record quarter { percentage = pos 95 }) visitor ≡ true
in_rollout_mono_example =
    in_rollout_mono codes "checkout" quarter 90 95 visitor (omega arith) (omega arith) in_at_ninety
