-- ===== src/Factory/Catalog.antt =====
-- internal/factory/catalog.go: the packs that a recipe may select, what the configurator is shown of
-- them, and which deployments go with which database. The function that publishes a delivery is
-- named here and defined in Generate/Publish.
use saas_reaper.Base.{
  String, Bool, true, false, Option, none, some, List, [], ◌∷◌, map, ◌==◌, if◌then◌else◌, is_some,
}
use saas_reaper.Base.Map.{Map}
use saas_reaper.Base.Int64.{ℤ, pos}

pub record Choice : Type 0 where
  pub value : String
  pub label : String
  pub description : String

-- A maximum of 0 is no ceiling.
pub record ReplicaPolicy : Type 0 where
  pub default : ℤ
  pub maximum : ℤ

pub record Compatibility : Type 0 where
  pub deployments_by_database : Map (List String)
  pub replicas_by_deployment : Map ReplicaPolicy

pub record Catalog : Type 0 where
  pub schema : String
  pub languages : List Choice
  pub databases : List Choice
  pub deployments : List Choice
  pub deliveries : List Choice
  pub compatibility : Compatibility

pub record Pack : Type 0 where
  pub choice : Choice
  pub version : String

pub record DatabasePack : Type 0 where
  pub pack : Pack
  pub shared : Bool

pub record DeploymentPack : Type 0 where
  pub pack : Pack
  pub requires_shared : Bool
  pub databases : List String
  pub replicas : ReplicaPolicy

pub record DeliveryArtifacts : Type 0 where
  pub directory : Bool
  pub archive_suffix : String

-- Which of publishDirectory, publishZIP and publishDirectoryAndZIP
pub data DeliveryPublisher : Type 0 where
  directory_publisher zip_publisher both_publisher : DeliveryPublisher

pub record DeliveryPack : Type 0 where
  pub pack : Pack
  pub artifacts : DeliveryArtifacts
  pub publish : DeliveryPublisher

abbrev pub new_pack : String → String → String → String → Pack
new_pack value label description version = record {
  choice = record { value = value; label = label; description = description };
  version = version;
}

abbrev pub language_packs : List Pack
language_packs =
    new_pack "go" "Go" "Small compiled service with explicit internal packages" "v5"
    ∷ new_pack "typescript" "TypeScript" "Node.js service with strict TypeScript" "v6"
    ∷ new_pack "python" "Python" "Python service with explicit policy boundaries" "v5"
    ∷ []

abbrev database_pack : Pack → Bool → DatabasePack
database_pack pack shared = record { pack = pack; shared = shared }

abbrev pub database_packs : List DatabasePack
database_packs =
    database_pack (new_pack "sqlite" "SQLite" "Single-instance embedded authority" "v3") false
    ∷ database_pack (new_pack "postgres" "PostgreSQL" "External production authority" "v3") true
    ∷ database_pack
        (new_pack "mongodb" "MongoDB" "External document authority with replica-set transactions"
          "v1")
        true
    ∷ database_pack
        (new_pack "couchbase" "Couchbase" "External document authority with CAS revisions" "v1")
        true
    ∷ []

-- The single hosts take every database and one replica; the clusters take the shared databases.
abbrev on_host : Pack → DeploymentPack
on_host pack = record {
  pack = pack;
  requires_shared = false;
  databases = "sqlite" ∷ "postgres" ∷ "mongodb" ∷ "couchbase" ∷ [];
  replicas = record { default = pos 1; maximum = pos 1 };
}

abbrev on_cluster : Pack → DeploymentPack
on_cluster pack = record {
  pack = pack;
  requires_shared = true;
  databases = "postgres" ∷ "mongodb" ∷ "couchbase" ∷ [];
  replicas = record { default = pos 2; maximum = pos 0 };
}

abbrev pub deployment_packs : List DeploymentPack
deployment_packs =
    on_host (new_pack "docker" "Docker Compose" "Local or single-host containers" "v4")
    ∷ on_cluster
        (new_pack "aws-ecs" "AWS ECS/Fargate" "Managed AWS container service with Terraform" "v4")
    ∷ on_host
        (new_pack "aws-ec2" "AWS EC2" "Single virtual machine with Terraform and cloud-init" "v4")
    ∷ on_cluster (
        new_pack "gcp-cloud-run" "GCP Cloud Run" "Managed GCP container service with Terraform"
          "v4")
    ∷ on_cluster (new_pack "kubernetes" "Kubernetes" "Portable manifests with Kustomize" "v3")
    ∷ []

abbrev delivery_pack : Pack → Bool → String → DeliveryPublisher → DeliveryPack
delivery_pack pack directory suffix publish = record {
  pack = pack;
  artifacts = record { directory = directory; archive_suffix = suffix };
  publish = publish;
}

abbrev pub delivery_packs : List DeliveryPack
delivery_packs =
    delivery_pack
      (new_pack "directory" "Directory" "Generate an editable repository directory" "v1") true ""
      directory_publisher
    ∷ delivery_pack (new_pack "zip" "ZIP" "Generate a portable ZIP archive" "v1") false ".zip"
        zip_publisher
    ∷ delivery_pack (new_pack "both" "Both" "Generate the directory and ZIP archive" "v1") true
        ".zip" both_publisher
    ∷ []

-- The first pack whose value is the one asked for.
module _ {A : Type 0} (pack_of : A → Pack) where
  abbrev pub find_pack : String → List A → Option A
  find_pack value [] = none
  find_pack value (registered ∷ packs) =
      if (pack_of registered).choice.value == value then some registered else find_pack value packs

unfoldable pub find_language : String → Option Pack
find_language value = find_pack (λ p. p) value language_packs

unfoldable pub find_database : String → Option DatabasePack
find_database value = find_pack (λ d. d.pack) value database_packs

unfoldable pub find_deployment : String → Option DeploymentPack
find_deployment value = find_pack (λ d. d.pack) value deployment_packs

unfoldable pub find_delivery : String → Option DeliveryPack
find_delivery value = find_pack (λ d. d.pack) value delivery_packs

abbrev pub is_listed : String → List String → Bool
is_listed value [] = false
is_listed value (supported ∷ rest) = if supported == value then true else is_listed value rest

unfoldable pub supports_database : DeploymentPack → String → Bool
supports_database deployment database = is_listed database deployment.databases

abbrev pub compatible_choices : String → List DeploymentPack → List Choice
compatible_choices database [] = []
compatible_choices database (d ∷ ds) =
    if supports_database d database
    then d.pack.choice ∷ compatible_choices database ds
    else compatible_choices database ds

unfoldable pub compatible_deployments : String → List Choice
unfolding find_database supports_database
compatible_deployments database =
    if is_some (find_database database) then compatible_choices database deployment_packs else []

abbrev pub default_of : Option DeploymentPack → ℤ
default_of none = pos 1
default_of (some selected) = selected.replicas.default

unfoldable pub default_replicas : String → ℤ
unfolding find_deployment
default_replicas deployment = default_of (find_deployment deployment)

abbrev pub choice_values_for_catalog : List Choice → List String
choice_values_for_catalog choices = map Choice.value choices

deployments_for : List DatabasePack → Map (List String)
unfolding compatible_deployments
deployments_for [] = []
deployments_for (d ∷ ds) =
    (d.pack.choice.value, choice_values_for_catalog (compatible_deployments d.pack.choice.value))
    ∷ deployments_for ds

replicas_for : List DeploymentPack → Map ReplicaPolicy
replicas_for [] = []
replicas_for (d ∷ ds) = (d.pack.choice.value, d.replicas) ∷ replicas_for ds

unfoldable pub compatibility : Compatibility
unfolding deployments_for replicas_for
compatibility = record {
  deployments_by_database = deployments_for database_packs;
  replicas_by_deployment = replicas_for deployment_packs;
}

abbrev choices : List Pack → List Choice
choices packs = map Pack.choice packs

abbrev database_choices : List Choice
database_choices = map (λ d. d.pack.choice) database_packs

abbrev deployment_choices : List Choice
deployment_choices = map (λ d. d.pack.choice) deployment_packs

abbrev delivery_choices : List Choice
delivery_choices = map (λ d. d.pack.choice) delivery_packs

unfoldable pub product_catalog : Catalog
unfolding compatibility
product_catalog = record {
  schema = "reaper.dev/catalog/v1";
  languages = choices language_packs;
  databases = database_choices;
  deployments = deployment_choices;
  deliveries = delivery_choices;
  compatibility = compatibility;
}
