-- ===== src/Factory/Generate/Staged.antt =====
-- internal/factory/render.go: rendering writes under the staging directory alone.
use saas_reaper.Base.{
  inl, inr, String, false, Option, none, some, List, [], ◌∷◌, ◌≡◌, refl, subst, ◌==◌, Option-cases,
}
use saas_reaper.Base.Map.{Map, lookup, insert, lookup-insert}
use saas_reaper.Factory.Validate.{Recipe}
use saas_reaper.Factory.Disk.{
  Tree, Node, archive, other_file, directory, Status, found, missing, unreadable, Failure, under,
  look, looked, seen, mkdir_within,
}
use saas_reaper.Factory.Disk.Keeps.{
  Keeps, Spares, lift-Keeps, call-Keeps, bind-Keeps, stat-Keeps, try-Keeps,
}
use saas_reaper.Factory.Render.{Toolkit, RenderData}
use saas_reaper.Factory.Write.{
  render_file, render_files, render_layer, render_layers, link_skill, link_skills, project_skills,
  render_repository, platforms, expect_missing,
}

-- A change that leaves the nodes alone.
pub same-Spares : (p : String) → Spares p mkdir_within
same-Spares p s nodes a changed h = let x : nodes ≡ changed = cc in rw x refl

expect_missing-Keeps :
    (p : String) (status : Status) (e f : Failure) → Keeps p (expect_missing status e f)
expect_missing-Keeps p found e f = lift-Keeps p _
expect_missing-Keeps p missing e f = lift-Keeps p _
expect_missing-Keeps p unreadable e f = lift-Keeps p _

seen_same :
    (p : String) {A : Type 0} (nodes : Map Node) (found : Option A) (a : A) (changed : Map Node)
    → seen nodes found ≡ some (a, changed)
    → lookup p changed ≡ lookup p nodes
seen_same p nodes none a changed h = cc
seen_same p nodes (some b) a changed h = let x : nodes ≡ changed = cc in rw x refl

looked_same :
    (p : String) {A : Type 0} (f : Tree → Option A) (nodes : Map Node) (holds : Option Node) (a : A)
    (changed : Map Node)
    → looked f nodes holds ≡ some (a, changed)
    → lookup p changed ≡ lookup p nodes
looked_same p f nodes none a changed h = cc
looked_same p f nodes (some (archive contents)) a changed h = cc
looked_same p f nodes (some (other_file text)) a changed h = cc
looked_same p f nodes (some (directory tree)) a changed h = seen_same p nodes (f tree) a changed h

pub look-Spares : (p root : String) {A : Type 0} (f : Tree → Option A) → Spares p (look root f)
unfolding look
look-Spares p root f s nodes a changed h = looked_same p f nodes (lookup root nodes) a changed h

module _ (p staging : String) (apart : (staging == p) ≡ false) where
  pub under-Spares : {A : Type 0} (f : Tree → Option (A × Tree)) → Spares p (under staging f)
  unfolding under
  under-Spares f s nodes a changed h = elim (Option-cases (lookup staging nodes)) [
    | inl e ↦ let x = rw e at h in cc
    | inr (archive contents, e) ↦ let x = rw e at h in cc
    | inr (other_file text, e) ↦ let x = rw e at h in cc
    | inr (directory tree, e) ↦ elim (Option-cases (f tree)) [
      | inl z ↦ let x = rw (e, z) at h in cc
      | inr ((b, grown), z) ↦
          let x : insert staging (directory grown) nodes ≡ changed = let y = rw (e, z) at h in cc in
          subst (λ changed. lookup p changed ≡ lookup p nodes) x
            (rw (lookup-insert staging p (directory grown) nodes, apart) refl)
    ]
  ]

  render_file-Keeps :
      (toolkit : Toolkit) (source body path : String) (values : RenderData)
      → Keeps p (render_file toolkit staging source body path values)
  unfolding render_file
  render_file-Keeps toolkit source body path values =
      search
        (
          bind-Keeps, lift-Keeps, call-Keeps, stat-Keeps, try-Keeps, same-Spares, under-Spares,
          expect_missing-Keeps,
        )
        depth 16

  render_files-Keeps :
      (toolkit : Toolkit) (layer : String) (values : RenderData) (files : Map String)
      → Keeps p (render_files toolkit staging layer values files)
  render_files-Keeps toolkit layer values [] = lift-Keeps p _
  render_files-Keeps toolkit layer values ((source, body) ∷ files) =
      bind-Keeps p _ _ (render_file-Keeps toolkit _ _ _ _)
        (λ done. render_files-Keeps toolkit layer values files)

  render_layers-Keeps :
      (toolkit : Toolkit) (values : RenderData) (layers : List String)
      → Keeps p (render_layers toolkit staging values layers)
  unfolding render_layer
  render_layers-Keeps toolkit values [] = lift-Keeps p _
  render_layers-Keeps toolkit values (layer ∷ layers) =
      bind-Keeps p _ _
        (bind-Keeps p _ _ (lift-Keeps p _) (λ done. render_files-Keeps toolkit layer values _))
        (λ done. render_layers-Keeps toolkit values layers)

  link_skill-Keeps :
      (name : String) (platforms : List String) → Keeps p (link_skill staging name platforms)
  link_skill-Keeps name [] = lift-Keeps p _
  link_skill-Keeps name (platform ∷ platforms) =
      search (bind-Keeps, call-Keeps, same-Spares, under-Spares, link_skill-Keeps name platforms)

  link_skills-Keeps : (names : List String) → Keeps p (link_skills staging names)
  link_skills-Keeps [] = lift-Keeps p _
  link_skills-Keeps (name ∷ names) =
      bind-Keeps p _ _ (link_skill-Keeps name platforms) (λ done. link_skills-Keeps names)

  project_skills-Keeps : Keeps p (project_skills staging)
  unfolding project_skills
  project_skills-Keeps = search (bind-Keeps, call-Keeps, look-Spares, link_skills-Keeps)

  -- Rendering, however it ends, leaves what every other path holds.
  pub render_repository-Keeps :
      (toolkit : Toolkit) (recipe : Recipe) → Keeps p (render_repository toolkit staging recipe)
  unfolding render_repository
  render_repository-Keeps toolkit recipe =
      search
        (
          bind-Keeps, lift-Keeps, call-Keeps, under-Spares, render_layers-Keeps,
          project_skills-Keeps,
        )
        depth 12
