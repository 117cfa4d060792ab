-- ===== src/Factory/Command/Composed.antt =====
-- cmd/reaper/main.go: what the interactive configurator composes.
use saas_reaper.Base.{
  ◌<◌, String, ◌≡◌, refl, sym, subst, inl, inr, true, Option, List, [], ◌∷◌, ◌==◌, length, map,
  is_some, ok, Bool-cases, All, eq_iff, ◌⊎◌, arith,
}
use saas_reaper.Base.Int64.{ℤ, pos, ◌≤ℤ◌}
use saas_reaper.Factory.Catalog.{
  default_of, compatible_choices, Choice, Pack, DeploymentPack, is_listed,
  choice_values_for_catalog, product_catalog, compatible_deployments, default_replicas, find_pack,
  find_language, find_database, find_deployment, find_delivery, supports_database, language_packs,
  deployment_packs, delivery_packs,
}
use saas_reaper.Factory.Validate.{Recipe, default_recipe, validate_selections}
use saas_reaper.Factory.Validate.Deployment.{IsDatabase}
use saas_reaper.Factory.Command.{Line, answer, first_value, reading, compose}
use saas_reaper.Factory.Command.Asked.{
  AreReadable, Gives, asked-Gives, IsValue, choice_at-listed, ask_choice-Gives, ask_text-Gives,
  ask_number-Gives,
}

-- A pack whose value is shown is found.
find_pack-listed :
    {A : Type 0} (pack_of : A → Pack) (value : String) (packs : List A)
    → is_listed value (map (λ a. (pack_of a).choice.value) packs) ≡ true
    → is_some (find_pack pack_of value packs) ≡ true
find_pack-listed pack_of value [] h = cc
find_pack-listed pack_of value (p ∷ packs) h =
    elim (Bool-cases ((pack_of p).choice.value == value)) [
      | inl e ↦ rw e refl
      | inr e ↦ rw e (find_pack-listed pack_of value packs (rw e at h))
    ]

default_of-positive :
    (target : String) (packs : List DeploymentPack)
    → All (λ d. pos 1 ≤ℤ d.replicas.default) packs
    → pos 1 ≤ℤ default_of (find_pack (λ d. d.pack) target packs)
default_of-positive target [] h = omega arith
default_of-positive target (d ∷ packs) (x, h) = elim (Bool-cases (d.pack.choice.value == target)) [
  | inl e ↦ rw e x
  | inr e ↦ rw e (default_of-positive target packs h)
]

default_replicas-positive : (target : String) → pos 1 ≤ℤ default_replicas target
unfolding default_replicas find_deployment
default_replicas-positive target =
    default_of-positive target deployment_packs
      (omega arith, (omega arith, (omega arith, (omega arith, (omega arith, tt)))))

listed-cons :
    (value v : String) (values : List String)
    → is_listed value (v ∷ values) ≡ true
    → (value ≡ v) ⊎ (is_listed value values ≡ true)
listed-cons value v values h = elim (Bool-cases (v == value)) [
  | inl e ↦ inl (sym ((eq_iff v value).0 e))
  | inr e ↦ inr (rw e at h)
]

shown-IsDatabase :
    (authority : String) → IsValue product_catalog.databases authority → IsDatabase authority
unfolding IsValue product_catalog
shown-IsDatabase authority h =
    elim (listed-cons authority "sqlite" ("postgres" ∷ "mongodb" ∷ "couchbase" ∷ []) h) [
      | inl e ↦ inl e
      | inr h ↦ elim (listed-cons authority "postgres" ("mongodb" ∷ "couchbase" ∷ []) h) [
        | inl e ↦ inr (inl e)
        | inr h ↦ elim (listed-cons authority "mongodb" ("couchbase" ∷ []) h) [
          | inl e ↦ inr (inr (inl e))
          | inr h ↦ elim (listed-cons authority "couchbase" [] h) [
            | inl e ↦ inr (inr (inr e))
            | inr h ↦ cc
          ]
        ]
      ]
    ]

HasDeployment : String → Type 0
HasDeployment authority = 0 < length (compatible_deployments authority)

some_deployment : (authority : String) → IsDatabase authority → HasDeployment authority
unfolding HasDeployment compatible_deployments find_database supports_database
some_deployment authority (inl e) = subst HasDeployment (sym e) (omega arith)
some_deployment authority (inr (inl e)) = subst HasDeployment (sym e) (omega arith)
some_deployment authority (inr (inr (inl e))) = subst HasDeployment (sym e) (omega arith)
some_deployment authority (inr (inr (inr e))) = subst HasDeployment (sym e) (omega arith)

-- A deployment that is offered is one of the catalog.
offered-known :
    (database target : String) (packs : List DeploymentPack)
    → is_listed target (choice_values_for_catalog (compatible_choices database packs)) ≡ true
    → is_some (find_pack (λ d. d.pack) target packs) ≡ true
offered-known database target [] h = cc
offered-known database target (d ∷ packs) h = elim (Bool-cases (d.pack.choice.value == target)) [
  | inl e ↦ rw e refl
  | inr e ↦ elim (Bool-cases (supports_database d database)) [
    | inl z ↦ rw e (offered-known database target packs (rw (z, e) at h))
    | inr z ↦ rw e (offered-known database target packs (rw z at h))
  ]
]

-- Every choice is in the catalog, the deployment is one that the catalog offers for the database,
-- and there is a replica at least.
pub IsComposable : Recipe → Type 0
IsComposable recipe =
    (validate_selections recipe ≡ ok tt)
    × ((is_listed recipe.target
            (choice_values_for_catalog (compatible_deployments recipe.authority))
          ≡ true)
        × (pos 1 ≤ℤ recipe.replicas))

database_found : (database : String) → IsDatabase database → is_some (find_database database) ≡ true
unfolding find_database
database_found database (inl e) = rw e refl
database_found database (inr (inl e)) = rw e refl
database_found database (inr (inr (inl e))) = rw e refl
database_found database (inr (inr (inr e))) = rw e refl

has_deployment :
    (authority : String) → IsDatabase authority → 0 < length (compatible_deployments authority)
unfolding HasDeployment
has_deployment authority known = some_deployment authority known

three_languages : 0 < length product_catalog.languages
unfolding product_catalog
three_languages = omega arith

four_databases : 0 < length product_catalog.databases
unfolding product_catalog
four_databases = omega arith

three_deliveries : 0 < length product_catalog.deliveries
unfolding product_catalog
three_deliveries = omega arith

offered-IsKnown :
    (database target : String)
    → IsDatabase database
    → IsValue (compatible_deployments database) target
    → is_some (find_deployment target) ≡ true
unfolding IsValue find_deployment compatible_deployments
offered-IsKnown database target known h =
    offered-known database target deployment_packs (rw (database_found database known) at h)

composable :
    (name language authority target format : String) (replicas : ℤ)
    → IsValue product_catalog.languages language
    → IsValue product_catalog.databases authority
    → IsValue (compatible_deployments authority) target
    → pos 1 ≤ℤ replicas
    → IsValue product_catalog.deliveries format
    → IsComposable (record default_recipe {
      name = name;
      language = language;
      authority = authority;
      target = target;
      replicas = replicas;
      format = format;
    })
unfolding IsComposable IsValue validate_selections product_catalog find_language find_delivery
    default_recipe
composable name language authority target format replicas l a t n f =
    let x = find_pack-listed (λ p. p) language language_packs l in
    let y = database_found authority (shown-IsDatabase authority a) in
    let z = offered-IsKnown authority target (shown-IsDatabase authority a) t in
    let w = find_pack-listed (λ d. d.pack) format delivery_packs f in (rw (x, y, z, w) refl, (t, n))

module _ (trim : String → String) (atoi : String → Option ℤ) where
  first-Gives :
      (choices : List Choice)
      → 0 < length choices
      → Gives (λ v. Unit) (reading trim atoi (first_value trim atoi choices))
  first-Gives choices h lines r =
      let (v, (l, e)) = choice_at-listed 0 choices h in (v, (tt, (e, r)))

  answer-Gives : (recipe : Recipe) → IsComposable recipe → Gives IsComposable (answer recipe)
  unfolding answer
  answer-Gives recipe h lines r = (recipe, (h, (refl, r)))

  compose-Gives : Gives IsComposable (compose trim atoi)
  unfolding compose
  compose-Gives =
      asked-Gives (λ s. Unit) IsComposable _ _ (ask_text-Gives trim atoi _)
        (λ name u.
          asked-Gives (IsValue product_catalog.languages) IsComposable _ _
            (ask_choice-Gives trim atoi product_catalog.languages _ three_languages)
            (λ language l.
              asked-Gives (IsValue product_catalog.databases) IsComposable _ _
                (ask_choice-Gives trim atoi product_catalog.databases _ four_databases)
                (λ authority a.
                  let known = shown-IsDatabase authority a in
                  asked-Gives (λ v. Unit) IsComposable _ _
                    (first-Gives (compatible_deployments authority)
                      (has_deployment authority known))
                    (λ first u.
                      asked-Gives (IsValue (compatible_deployments authority)) IsComposable _ _
                        (ask_choice-Gives trim atoi (compatible_deployments authority) first
                          (has_deployment authority known))
                        (λ target t.
                          asked-Gives (λ n. pos 1 ≤ℤ n) IsComposable _ _
                            (ask_number-Gives trim atoi (default_replicas target)
                              (default_replicas-positive target))
                            (λ replicas n.
                              asked-Gives (IsValue product_catalog.deliveries) IsComposable _ _
                                (ask_choice-Gives trim atoi product_catalog.deliveries _
                                  three_deliveries)
                                (λ format f. answer-Gives _ (
                                  composable name language authority target format replicas l a t n
                                    f))))))))

-- Over input whose reads do not fail, whatever the lines are, the configurator composes a recipe,
-- and no index is out of range: every choice of it is in the catalog, the deployment is one that the
-- catalog offers for the database, and there is a replica at least.
pub compose-IsComposable :
    (trim : String → String) (atoi : String → Option ℤ) (lines : List Line)
    → AreReadable lines
    → (recipe : Recipe) × (((compose trim atoi lines).0 ≡ ok recipe) × IsComposable recipe)
compose-IsComposable trim atoi lines r =
    let (recipe, (h, (e, rest))) = compose-Gives trim atoi lines r in (recipe, (e, h))
