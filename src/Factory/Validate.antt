-- ===== src/Factory/Validate.antt =====
-- internal/factory/recipe.go and validate.go: the customer's recipe and the combinations of its
-- choices that are refused. An error is named for its message.
pub mod Deployment
use Prim.Native.String
use saas_reaper.Base.{
  ℕ, String, Bool, true, false, not, ◌&&◌, ◌||◌, Option, none, some, List, [], ◌∷◌, ◌==◌, ltb, leb,
  length, all, is_empty, if◌then◌else◌, is_some, Result, ok, err, ◌>>=◌, ◌>>◌, guard,
}
use saas_reaper.Base.Map.{Map, has, insert}
use saas_reaper.Base.Text.{codes, is_blank, after_prefix}
use saas_reaper.Base.Int64.{ℤ, pos, ltb_ℤ, eqb_ℤ}
use saas_reaper.Factory.Catalog.{
  Pack, Choice, ReplicaPolicy, DatabasePack, DeploymentPack, new_pack, find_language, find_database,
  find_deployment, find_delivery, supports_database,
}

-- The fields of the struct and of the structs in it.
pub record Recipe : Type 0 where
  pub schema : String
  pub name : String
  pub capability : String
  pub language : String
  pub authority : String
  pub target : String
  pub replicas : ℤ
  pub format : String
  pub tenant : String
  pub targeting_attributes : List String

pub data Problem : Type 0 where
  wrong_schema not_a_dns_label wrong_capability : Problem
  unsupported_language unsupported_database unsupported_deployment unsupported_delivery : Problem
  ecs_name cloud_run_name too_few_replicas : Problem
  needs_shared_database database_not_supported : Problem
  not_durable_across_hosts exactly_one_replica too_many_replicas : Problem
  no_tenant no_attributes empty_attribute duplicate_attribute no_targeting_key : Problem

abbrev pub recipe_schema : String
recipe_schema = "reaper.dev/v0alpha2"

unfoldable pub default_recipe : Recipe
default_recipe = record {
  schema = recipe_schema;
  name = "reaper-flags";
  capability = "feature-flags";
  language = "go";
  authority = "sqlite";
  target = "docker";
  replicas = pos 1;
  format = "both";
  tenant = "organization";
  targeting_attributes = "targetingKey" ∷ "organization.id" ∷ [];
}

-- [a-z]
abbrev is_lower : ℕ → Bool
is_lower c = leb b'a' c && leb c b'z'

-- [a-z0-9]
abbrev is_lower_or_digit : ℕ → Bool
is_lower_or_digit c = is_lower c || leb b'0' c && leb c b'9'

-- [a-z0-9-]* and at the end [a-z0-9]
abbrev is_label_tail : List ℕ → Bool
is_label_tail [] = false
is_label_tail (c ∷ []) = is_lower_or_digit c
is_label_tail (c ∷ d ∷ cs) =
    (is_lower_or_digit c || leb b'-' c && leb c b'-') && is_label_tail (d ∷ cs)

-- ^[a-z][a-z0-9-]{0,61}[a-z0-9]$
abbrev pub matches_project_name : List ℕ → Bool
matches_project_name [] = false
matches_project_name (c ∷ cs) = is_lower c && is_label_tail cs && leb (length cs) 62

unfoldable pub validate_identity : Recipe → Result Problem (Unit {0})
validate_identity recipe = do
  guard (recipe.schema == recipe_schema) wrong_schema
  guard (matches_project_name (codes recipe.name)) not_a_dns_label
  guard (recipe.capability == "feature-flags") wrong_capability

unfoldable pub validate_selections : Recipe → Result Problem (Unit {0})
unfolding find_language find_database find_deployment find_delivery
validate_selections recipe = do
  guard (is_some (find_language recipe.language)) unsupported_language
  guard (is_some (find_database recipe.authority)) unsupported_database
  guard (is_some (find_deployment recipe.target)) unsupported_deployment
  guard (is_some (find_delivery recipe.format)) unsupported_delivery

unfoldable pub validate_deployment_name : Recipe → Result Problem (Unit {0})
validate_deployment_name recipe = do
  guard
      (not (
        recipe.target == "aws-ecs"
        && (ltb 32 (String.len recipe.name) || is_some (after_prefix recipe.name "internal-"))))
      ecs_name
  guard
      (not (
        recipe.target == "gcp-cloud-run"
        && (ltb (String.len recipe.name) 6 || ltb 30 (String.len recipe.name))))
      cloud_run_name

-- The pack that was found, or the zero value.
abbrev database_of : Option DatabasePack → DatabasePack
database_of none = record { pack = new_pack "" "" "" ""; shared = false }
database_of (some d) = d

abbrev deployment_of : Option DeploymentPack → DeploymentPack
deployment_of none = record {
  pack = new_pack "" "" "" "";
  requires_shared = false;
  databases = [];
  replicas = record { default = pos 0; maximum = pos 0 };
}
deployment_of (some d) = d

-- The checks that follow the name's and the first of the replicas.
abbrev validate_placement : ℤ → String → DatabasePack → DeploymentPack → Result Problem (Unit {0})
unfolding supports_database
validate_placement replicas authority database deployment = do
  guard (supports_database deployment authority) (
      if deployment.requires_shared && not database.shared
      then needs_shared_database
      else database_not_supported)
  guard (not (not database.shared && not (eqb_ℤ replicas (pos 1)))) not_durable_across_hosts
  guard (not (eqb_ℤ deployment.replicas.maximum (pos 1) && not (eqb_ℤ replicas (pos 1))))
      exactly_one_replica
  guard
      (not
        (ltb_ℤ (pos 1) deployment.replicas.maximum && ltb_ℤ deployment.replicas.maximum replicas))
      too_many_replicas

unfoldable pub validate_deployment : Recipe → Result Problem (Unit {0})
unfolding validate_deployment_name find_database find_deployment supports_database
validate_deployment recipe = do
  validate_deployment_name recipe
  guard (not (ltb_ℤ recipe.replicas (pos 1))) too_few_replicas
  validate_placement recipe.replicas recipe.authority (database_of (find_database recipe.authority))
      (deployment_of (find_deployment recipe.target))

-- The loop over the attributes; `seen` holds the earlier ones.
abbrev validate_unseen : Map (Unit {0}) → List String → Result Problem (Unit {0})
validate_unseen seen [] = guard (has "targetingKey" seen) no_targeting_key
validate_unseen seen (a ∷ attributes) = do
  guard (not (is_blank a)) empty_attribute
  guard (not (has a seen)) duplicate_attribute
  validate_unseen (insert a tt seen) attributes

unfoldable pub validate_attributes : List String → Result Problem (Unit {0})
unfolding has insert
validate_attributes attributes = do
  guard (not (is_empty attributes)) no_attributes
  validate_unseen [] attributes

unfoldable pub validate_recipe : Recipe → Result Problem (Unit {0})
unfolding validate_identity validate_selections validate_deployment validate_attributes
validate_recipe recipe = do
  validate_identity recipe
  validate_selections recipe
  validate_deployment recipe
  guard (not (is_blank recipe.tenant)) no_tenant
  validate_attributes recipe.targeting_attributes
