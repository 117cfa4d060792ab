-- ===== src/Factory/Tests.antt =====
-- The theorems of recipes at concrete inputs.
use saas_reaper.Base.{◌≡◌, ◌↔◌, inl, inr, refl, true, [], ok, arith}
use saas_reaper.Base.Int64.{pos, ◌≤ℤ◌}
use saas_reaper.Factory.Catalog.{
  is_listed, choice_values_for_catalog, compatible_deployments, default_replicas,
}
use saas_reaper.Factory.Validate.{Recipe, validate_deployment}
use saas_reaper.Factory.Validate.Deployment.{
  IsSupported, HasFittingName, validate_deployment_iff, offered_iff_accepted,
}

-- The default recipe, on ECS with PostgreSQL and three replicas.
abbrev recipe : Recipe
recipe = record {
  schema = "reaper.dev/v0alpha2";
  name = "reaper-flags";
  capability = "feature-flags";
  language = "go";
  authority = "postgres";
  target = "aws-ecs";
  replicas = pos 3;
  format = "both";
  tenant = "organization";
  targeting_attributes = [];
}

recipe-HasFittingName : HasFittingName recipe
recipe-HasFittingName = (λ e. (omega arith, refl), λ e. cc)

validate_deployment_iff_example :
    (validate_deployment recipe ≡ ok tt)
    ↔ (HasFittingName recipe × ((pos 1 ≤ℤ pos 3) × IsSupported "postgres" "aws-ecs" (pos 3)))
validate_deployment_iff_example = validate_deployment_iff recipe (inr (inl refl)) (inr (inl refl))

offered_iff_accepted_example :
    (is_listed "aws-ecs" (choice_values_for_catalog (compatible_deployments "postgres")) ≡ true)
    ↔ (validate_deployment (record recipe { replicas = default_replicas "aws-ecs" }) ≡ ok tt)
offered_iff_accepted_example =
    offered_iff_accepted recipe (inr (inl refl)) (inr (inl refl)) recipe-HasFittingName
