-- ===== src/Flags/Api/Tests.antt =====
-- The theorems of the HTTP routes at concrete requests, over the in-process store. A body is the value
-- that it decodes to; the hash and the encodings are stand-ins.
use saas_reaper.Base.{
  String, ◌≡◌, ◌≢◌, refl, ap, Bool, true, false, Option, none, some, [], ◌∷◌, ok, arith,
}
use saas_reaper.Base.Map.{Map, lookup, nested, insert, has}
use saas_reaper.Base.Text.{codes}
use saas_reaper.Base.Int64.{pos, inc}
use saas_reaper.Flags.Flag.{Flag, Value, bool, text, boolean, copy, validate, validate_key}
use saas_reaper.Flags.Memory.{new}
use saas_reaper.Flags.Memory
use saas_reaper.Flags.Memory.Laws.{memory}
use saas_reaper.Flags.Snapshot.{put, new_memory}
use saas_reaper.Flags.Service.{Service}
use saas_reaper.Flags.Service
use saas_reaper.Flags.Evaluate.Soundness.{HasTargetingKey}
use saas_reaper.Flags.Api.Routes.{
  Wire, Request, PublishRequest, Server, Route, health, list_audit, publish_flag,
  evaluate_environment, write_json, refused, flag_reply, only_value,
}
use saas_reaper.Flags.Api.Routes
use saas_reaper.Flags.Api.Manage
use saas_reaper.Flags.Api.Ofrep.{evaluate_all, quoted}
use saas_reaper.Flags.Api.Ofrep
use saas_reaper.Flags.Api.{handle, serve, authorize}
use saas_reaper.Flags.Api.Separation.{management, crossed_token_refused, only_publish_changes}
use saas_reaper.Flags.Api.Outcome.{
  Keeps, Attributes, failure_changes_nothing, publish_is_attributed,
}
use saas_reaper.Flags.Api.Bulk.{bulk_answers, Complete}

data Body : Type 0 where
  publication : PublishRequest → Body
  question : Map Value → Body
  nothing : Body

abbrev publication_of : Body → Option (PublishRequest × Body)
publication_of (publication request) = some (request, nothing)
publication_of body = none

abbrev question_of : Body → Option (Map Value × Body)
question_of (question context) = some (context, nothing)
question_of body = none

abbrev is_nothing : Body → Bool
is_nothing nothing = true
is_nothing body = false

abbrev wire : Wire
wire = record {
  Bytes = Body;
  decode_publish = publication_of;
  decode_evaluation = question_of;
  at_end = is_nothing;
  atoi = λ s. none;
  print = λ n. "1";
  marshal = λ context. some "{}";
  sha256 = codes;
  hex = λ digest. "abc";
}

abbrev server : Server
server = record { admin_token = "root"; admin_actor = "ops"; evaluation_token = "app" }

server_made : Routes.new "root" "ops" "app" ≡ ok server
unfolding Routes.new
server_made = refl

abbrev service : Service memory
unfolding memory
service = record { store = new; snapshot = new_memory }

abbrev toggle : Flag
toggle = record {
  key = "";
  kind = boolean;
  enabled = true;
  default_variant = "off";
  variants = ("off", bool false) ∷ ("on", bool true) ∷ [];
  rules = [];
  rollout = none;
  revision = pos 0;
  updated_at = 0;
}

abbrev put_request : String → Request Body
put_request authorization = record {
  route = publish_flag "prod" "checkout";
  authorization = authorization;
  if_none_match = "";
  limit = "";
  body = publication (record { expected_revision = pos 0; flag = toggle });
}

crossed_token_refused_example :
    handle wire memory server 10 (put_request "Bearer app") service
    ≡ (write_json 401 refused, service)
crossed_token_refused_example =
    crossed_token_refused wire memory server 10 (put_request "Bearer app") service "root" "ops"
      "app" management server_made refl refl

only_publish_changes_example :
    (handle wire memory server 10 (put_request "Bearer app") service).1 ≡ service
unfolding Routes.authorized
only_publish_changes_example =
    only_publish_changes wire memory server 10 (put_request "Bearer app") service refl

not_authorized : (handle wire memory server 10 (put_request "Bearer app") service).0.status ≢ 200
not_authorized h =
    let x = ap (λ (r : Manage.Handled wire memory). r.0.status) crossed_token_refused_example in
    omega (arith, x, h)

failure_changes_nothing_example :
    Keeps wire memory service (handle wire memory server 10 (put_request "Bearer app") service).1
failure_changes_nothing_example =
    failure_changes_nothing wire memory server 10 (put_request "Bearer app") service not_authorized

service-IsValid : memory.IsValid service.store
unfolding memory
service-IsValid = record { environments = tt; each = tt }

accepted : (handle wire memory server 10 (put_request "Bearer root") service).0.status ≡ 200
unfolding handle serve authorize Routes.authorized Routes.provides Manage.publish
    Manage.publish_decoded Manage.published only_value Service.publish Service.admit
    Service.validate_environment memory Memory.publish validate validate_key copy nested lookup
    insert has inc
accepted = refl

publish_is_attributed_example :
    (Routes.authorized "root" "Bearer root" ≡ true)
    × Attributes wire memory server 10
        (put_request "Bearer root")
        service
        "prod"
        "checkout"
        (handle wire memory server 10 (put_request "Bearer root") service)
publish_is_attributed_example =
    publish_is_attributed wire memory server 10 (put_request "Bearer root") service "prod"
      "checkout" service-IsValid refl accepted

abbrev serving : Service memory
unfolding memory
serving = record {
  store = new;
  snapshot = put "prod" (record toggle { key = "checkout" }) new_memory;
}

abbrev visitor : Map Value
visitor = ("targetingKey", text "ann") ∷ []

answered : (evaluate_all wire memory "prod" "" (question visitor) serving).status ≡ 200
unfolding evaluate_all Ofrep.read_evaluation_request Ofrep.context_of only_value
    Ofrep.read_targeting_key Ofrep.evaluate_all_context Ofrep.evaluate_flags Ofrep.evaluate_listed
    Ofrep.version_of lookup Service.list_flags Service.validate_environment validate_key
answered = refl

bulk_answers_example :
    (context : Map Value) × (only_value wire (question_of (question visitor)) ≡ some context)
    × HasTargetingKey context
    × Complete wire memory "prod" ""
        (question visitor)
        serving
        context
        (evaluate_all wire memory "prod" "" (question visitor) serving)
bulk_answers_example = bulk_answers wire memory "prod" "" (question visitor) serving answered
