-- ===== src/Factory/Validate/Deployment.antt =====
-- Which deployments internal/factory/validate.go accepts, whatever the order of its checks, and that
-- the catalog offers exactly those.
use Prim.Native.String
use saas_reaper.Base.{
  ◌≤◌, String, ◌≡◌, ◌≢◌, ◌↔◌, ◌⊎◌, inl, inr, refl, ap, Bool, true, false, not, ◌||◌, none, List, [],
  ◌∷◌, ◌==◌, eq_iff, arith, ok, guard, >>_iff,
}
use saas_reaper.Base.Text.{after_prefix}
use saas_reaper.Base.Int64.{ℤ, pos, eqb_ℤ_iff, ◌≤ℤ◌, ltb_ℤ}
use saas_reaper.Factory.Catalog.{
  DatabasePack, DeploymentPack, ReplicaPolicy, find_database, find_deployment, supports_database,
  is_listed, choice_values_for_catalog, compatible_deployments, default_replicas,
}
use saas_reaper.Factory.Validate.{
  Recipe, too_few_replicas, validate_deployment_name, database_of, deployment_of,
  validate_placement, validate_deployment,
}

abbrev pub IsDatabase : String → Type 0
IsDatabase a = (a ≡ "sqlite") ⊎ (a ≡ "postgres") ⊎ (a ≡ "mongodb") ⊎ (a ≡ "couchbase")

-- A single machine.
abbrev pub IsHost : String → Type 0
IsHost t = (t ≡ "docker") ⊎ (t ≡ "aws-ec2")

abbrev pub IsCluster : String → Type 0
IsCluster t = (t ≡ "aws-ecs") ⊎ (t ≡ "gcp-cloud-run") ⊎ (t ≡ "kubernetes")

-- One replica on a host, and on a cluster a database that the replicas share.
abbrev pub IsSupported : String → String → ℤ → Type 0
IsSupported a t n = (IsHost t × (n ≡ pos 1)) ⊎ (IsCluster t × (a ≢ "sqlite"))

abbrev host_databases : List String
host_databases = "sqlite" ∷ "postgres" ∷ "mongodb" ∷ "couchbase" ∷ []

abbrev cluster_databases : List String
cluster_databases = "postgres" ∷ "mongodb" ∷ "couchbase" ∷ []

abbrev pub HasFittingName : Recipe → Type 0
HasFittingName r =
    (r.target ≡ "aws-ecs" → (String.len r.name ≤ 32) × (after_prefix r.name "internal-" ≡ none))
    × (r.target ≡ "gcp-cloud-run" → (6 ≤ String.len r.name) × (String.len r.name ≤ 30))

shared_lem :
    (a : String)
    → IsDatabase a
    → ((database_of (find_database a)).shared ≡ not (a == "sqlite"))
      × (is_listed a host_databases ≡ true)
      × (is_listed a cluster_databases ≡ not (a == "sqlite"))
unfolding find_database
shared_lem a (inl d) = rw d (refl, refl, refl)
shared_lem a (inr (inl d)) = rw d (refl, refl, refl)
shared_lem a (inr (inr (inl d))) = rw d (refl, refl, refl)
shared_lem a (inr (inr (inr d))) = rw d (refl, refl, refl)

host_lem :
    (t : String)
    → IsHost t
    → ((deployment_of (find_deployment t)).databases ≡ host_databases)
      × ((deployment_of (find_deployment t)).replicas ≡ record { default = pos 1; maximum = pos 1 })
unfolding find_deployment
host_lem t (inl h) = rw h (refl, refl)
host_lem t (inr h) = rw h (refl, refl)

cluster_lem :
    (t : String)
    → IsCluster t
    → ((deployment_of (find_deployment t)).databases ≡ cluster_databases)
      × ((deployment_of (find_deployment t)).replicas ≡ record { default = pos 2; maximum = pos 0 })
unfolding find_deployment
cluster_lem t (inl h) = rw h (refl, refl)
cluster_lem t (inr (inl h)) = rw h (refl, refl)
cluster_lem t (inr (inr h)) = rw h (refl, refl)

abbrev is_host : String → Bool
is_host t = t == "docker" || t == "aws-ec2"

host_true : (t : String) → IsHost t → is_host t ≡ true
host_true t (inl h) = rw h refl
host_true t (inr h) = rw h refl

cluster_false : (t : String) → IsCluster t → is_host t ≡ false
cluster_false t (inl c) = rw c refl
cluster_false t (inr (inl c)) = rw c refl
cluster_false t (inr (inr c)) = rw c refl

not_cluster : (t : String) → IsHost t → IsCluster t → ⊥
not_cluster t h c = let x = host_true t h in let y = cluster_false t c in cc

-- What is left of the placement checks once the packs are known.
host_iff :
    (n : ℤ) (a : String) (db : DatabasePack) (d : DeploymentPack)
    → d.databases ≡ host_databases
    → d.replicas ≡ record { default = pos 1; maximum = pos 1 }
    → is_listed a host_databases ≡ true
    → (validate_placement n a db d ≡ ok tt) ↔ (n ≡ pos 1)
unfolding supports_database
host_iff n a db d h k l =
    let m : d.replicas.maximum ≡ pos 1 = ap ReplicaPolicy.maximum k in
    let listed : is_listed a d.databases ≡ true = rw (h, l) refl in
    let e = eqb_ℤ_iff n (pos 1) in rw (m, listed) (ground (arith, e))

cluster_iff :
    (n : ℤ) (a : String) (db : DatabasePack) (d : DeploymentPack)
    → d.databases ≡ cluster_databases
    → d.replicas ≡ record { default = pos 2; maximum = pos 0 }
    → is_listed a cluster_databases ≡ not (a == "sqlite")
    → db.shared ≡ not (a == "sqlite")
    → (validate_placement n a db d ≡ ok tt) ↔ (a ≢ "sqlite")
unfolding supports_database
cluster_iff n a db d h k l s =
    let m : d.replicas.maximum ≡ pos 0 = ap ReplicaPolicy.maximum k in
    let listed : is_listed a d.databases ≡ not (a == "sqlite") = rw (h, l) refl in
    rw (m, listed, s) (ground (arith, eq_iff a "sqlite"))

fitting_iff : (r : Recipe) → (validate_deployment_name r ≡ ok tt) ↔ HasFittingName r
unfolding validate_deployment_name
fitting_iff r = ground (arith, eq_iff r.target "aws-ecs", eq_iff r.target "gcp-cloud-run")

few_iff : (n : ℤ) → (guard (not (ltb_ℤ n (pos 1))) too_few_replicas ≡ ok tt) ↔ (pos 1 ≤ℤ n)
few_iff n = ground arith

placed_iff :
    (a t : String) (n : ℤ)
    → IsDatabase a
    → IsHost t ⊎ IsCluster t
    → (validate_placement n a (database_of (find_database a)) (deployment_of (find_deployment t))
        ≡ ok tt)
      ↔ IsSupported a t n
placed_iff a t n base (inl h) =
    let (shared, on_host, on_cluster) = shared_lem a base in
    let (databases, replicas) = host_lem t h in
    let (to, from) =
      host_iff n a (database_of (find_database a)) (deployment_of (find_deployment t)) databases
        replicas on_host in
    (λ x. inl (h, to x), λ s. elim s [ inl x ↦ from x.1 | inr x ↦ elim (not_cluster t h x.0) [ ] ])
placed_iff a t n base (inr c) =
    let (shared, on_host, on_cluster) = shared_lem a base in
    let (databases, replicas) = cluster_lem t c in
    let (to, from) =
      cluster_iff n a (database_of (find_database a)) (deployment_of (find_deployment t)) databases
        replicas on_cluster shared in
    (λ x. inr (c, to x), λ s. elim s [ inl x ↦ elim (not_cluster t x.0 c) [ ] | inr x ↦ from x.1 ])

module _ (r : Recipe) where
  -- For a database and a deployment of the catalog, the deployment of a recipe is accepted exactly
  -- if its name fits the provider, it asks for a replica at least, and it is one replica on a host,
  -- or any number on a cluster with a database other than SQLite.
  pub validate_deployment_iff :
      IsDatabase r.authority
      → IsHost r.target ⊎ IsCluster r.target
      → (validate_deployment r ≡ ok tt)
        ↔ (HasFittingName r × ((pos 1 ≤ℤ r.replicas) × IsSupported r.authority r.target r.replicas))
  unfolding validate_deployment
  validate_deployment_iff base t =
      >>_iff (fitting_iff r)
        (>>_iff (few_iff r.replicas) (placed_iff r.authority r.target r.replicas base t))

offered_sqlite :
    (t : String) → IsHost t ⊎ IsCluster t → is_listed t ("docker" ∷ "aws-ec2" ∷ []) ≡ is_host t
offered_sqlite t (inl (inl h)) = rw h refl
offered_sqlite t (inl (inr h)) = rw h refl
offered_sqlite t (inr (inl c)) = rw c refl
offered_sqlite t (inr (inr (inl c))) = rw c refl
offered_sqlite t (inr (inr (inr c))) = rw c refl

abbrev every_target : List String
every_target = "docker" ∷ "aws-ecs" ∷ "aws-ec2" ∷ "gcp-cloud-run" ∷ "kubernetes" ∷ []

offered_shared : (t : String) → IsHost t ⊎ IsCluster t → is_listed t every_target ≡ true
offered_shared t (inl (inl h)) = rw h refl
offered_shared t (inl (inr h)) = rw h refl
offered_shared t (inr (inl c)) = rw c refl
offered_shared t (inr (inr (inl c))) = rw c refl
offered_shared t (inr (inr (inr c))) = rw c refl

offered_lem :
    (a t : String)
    → IsDatabase a
    → IsHost t ⊎ IsCluster t
    → is_listed t (choice_values_for_catalog (compatible_deployments a))
      ≡ (is_host t || not (a == "sqlite"))
unfolding compatible_deployments
offered_lem a t (inl d) h = rw (d, offered_sqlite t h) (ground arith)
offered_lem a t (inr (inl d)) h = rw (d, offered_shared t h) (ground arith)
offered_lem a t (inr (inr (inl d))) h = rw (d, offered_shared t h) (ground arith)
offered_lem a t (inr (inr (inr d))) h = rw (d, offered_shared t h) (ground arith)

default_host : (t : String) → IsHost t → default_replicas t ≡ pos 1
unfolding default_replicas
default_host t (inl h) = rw h refl
default_host t (inr h) = rw h refl

default_cluster : (t : String) → IsCluster t → default_replicas t ≡ pos 2
unfolding default_replicas
default_cluster t (inl c) = rw c refl
default_cluster t (inr (inl c)) = rw c refl
default_cluster t (inr (inr c)) = rw c refl

-- A default number is accepted exactly where the deployment is offered.
default_iff :
    (a t : String)
    → IsDatabase a
    → IsHost t ⊎ IsCluster t
    → (is_listed t (choice_values_for_catalog (compatible_deployments a)) ≡ true)
      ↔ ((pos 1 ≤ℤ default_replicas t) × IsSupported a t (default_replicas t))
default_iff a t base (inl h) =
    rw (offered_lem a t base (inl h), default_host t h, host_true t h)
      (λ x. (omega arith, inl (h, refl)), λ x. refl)
default_iff a t base (inr c) =
    rw (offered_lem a t base (inr c), default_cluster t c, cluster_false t c)
      (
        λ x. (omega arith, inr (c, λ e. ground (arith, eq_iff a "sqlite"))),
        λ x. elim x.1 [
          | inl y ↦ elim (not_cluster t y.0 c) [ ]
          | inr y ↦ ground (arith, eq_iff a "sqlite")
        ],
      )

-- For a database and a deployment of the catalog and a name that fits the provider: the catalog
-- offers the deployment for the database exactly if the recipe is accepted with the deployment's
-- default number of replicas.
pub offered_iff_accepted :
    (r : Recipe)
    → IsDatabase r.authority
    → IsHost r.target ⊎ IsCluster r.target
    → HasFittingName r
    → (is_listed r.target (choice_values_for_catalog (compatible_deployments r.authority)) ≡ true)
      ↔ (validate_deployment (record r { replicas = default_replicas r.target }) ≡ ok tt)
offered_iff_accepted r base t fits =
    let (to, from) =
      validate_deployment_iff (record r { replicas = default_replicas r.target }) base t in
    let (there, back) = default_iff r.authority r.target base t in
    (λ h. from (fits, there h), λ h. back (to h).1)
