-- ===== src/Factory/Generate/Complete.antt =====
-- internal/factory/render.go: the staging directory holds the whole repository once rendering ends.
use saas_reaper.Base.{
  String, Bool, true, false, Option, none, some, List, [], ◌∷◌, ◌++◌, ◌≡◌, refl, sym, ◌∙◌, ap,
  subst, inl, inr, Result, ok, err, Bool-cases, Option-cases, is_some, guard,
}
use saas_reaper.Base
use saas_reaper.Base.Map.{
  Map, insert, HasUniqueKeys, insert-HasUniqueKeys, insert_new, insert-insert,
}
use saas_reaper.Factory.Validate.{Recipe}
use saas_reaper.Factory.Disk.{Tree, file, directory, Disk, Failure, lift}
use saas_reaper.Factory.Disk.Ensures.{Ensures, Holds, bind-Ensures, lift-Ensures}
use saas_reaper.Factory.Render.{
  Toolkit, RenderData, new_render_data, encode_recipe, skills_in, layers_of, output_name, files_in,
}
use saas_reaper.Factory.Write.{walked, render_files, render_layer, render_layers, render_repository}
use saas_reaper.Factory.Generate.Expected.{
  outputs_of, layer_outputs, links_of, skills_read, repository_of,
}
use saas_reaper.Factory.Generate.Rendered.{Rendered, render_file-Ensures, write-under-Ensures}
use saas_reaper.Factory.Generate.Added.{
  Adds, Adds-none, Adds-append, grown-HasUniqueKeys, AddsLinks, project_skills-Ensures,
}

module _ (toolkit : Toolkit) (staging : String) (values : RenderData) where
  render_files-Ensures :
      (layer : String) (files : Map String) (tree : Tree)
      → Ensures
          (Holds staging (directory tree))
          (render_files toolkit staging layer values files)
          (λ done. Adds staging tree (outputs_of toolkit values layer files))
  unfolding Ensures lift
  render_files-Ensures layer [] tree = λ d h a e. Adds-none staging tree d h
  render_files-Ensures layer ((source, body) ∷ files) tree =
      let path = output_name layer source in
      bind-Ensures _ _ (Holds staging (directory tree))
        (λ done. Rendered toolkit staging values tree source body path)
        (λ done. Adds staging tree (outputs_of toolkit values layer ((source, body) ∷ files)))
        (render_file-Ensures toolkit staging values tree source body path)
        (λ done d (template, (parses, (new, (whole, h)))) u e.
          let entry = file (toolkit.execute template values).0 in
          let grown : insert path entry (insert path (file "") tree) ≡ tree ++ (path, entry) ∷ [] =
            insert-insert path (file "") entry tree ∙ insert_new path entry tree new in
          let rest =
            render_files-Ensures layer files (tree ++ (path, entry) ∷ []) d
              (subst (λ t. Holds staging (directory t) d) grown h) u e in
          let (after, (x, y)) =
            Adds-append staging tree ((path, entry) ∷ []) (outputs_of toolkit values layer files)
              (render_files toolkit staging layer values files d).1
              (grown-HasUniqueKeys tree path entry new) rest in
          ((path, entry) ∷ after, (rw (parses, whole, x) refl, y)))

  abbrev AddsLayer : String → Tree → Disk → Type 0
  AddsLayer layer tree d =
      (walked (files_in layer toolkit.template_files) ≡ ok tt)
      × Adds staging tree (outputs_of toolkit values layer (files_in layer toolkit.template_files))
          d

  render_layer-Ensures :
      (layer : String) (tree : Tree)
      → Ensures
          (Holds staging (directory tree))
          (render_layer toolkit staging layer values)
          (λ done. AddsLayer layer tree)
  unfolding Ensures render_layer
  render_layer-Ensures layer tree =
      bind-Ensures _ _ (Holds staging (directory tree))
        (λ u d.
          (walked (files_in layer toolkit.template_files) ≡ ok u)
          × Holds staging (directory tree) d)
        (λ done. AddsLayer layer tree) (lift-Ensures (Holds staging (directory tree)) _)
        (λ u d (w, h) x e.
          (w, render_files-Ensures layer (files_in layer toolkit.template_files) tree d h x e))

  render_layers-Ensures :
      (layers : List String) (tree : Tree)
      → Ensures
          (Holds staging (directory tree))
          (render_layers toolkit staging values layers)
          (λ done. Adds staging tree (layer_outputs toolkit values layers))
  unfolding Ensures lift
  render_layers-Ensures [] tree = λ d h a e. Adds-none staging tree d h
  render_layers-Ensures (layer ∷ layers) tree =
      bind-Ensures _ _ (Holds staging (directory tree)) (λ done. AddsLayer layer tree)
        (λ done. Adds staging tree (layer_outputs toolkit values (layer ∷ layers)))
        (render_layer-Ensures layer tree)
        (λ done d (w, (outs, (e, (u, h)))) x y.
          let rest = render_layers-Ensures layers (tree ++ outs) d h x y in
          let (after, (z, v)) =
            Adds-append staging tree outs (layer_outputs toolkit values layers)
              (render_layers toolkit staging values layers d).1 u rest in
          (outs ++ after, (rw (w, e, z) refl, v)))

bind-ok :
    {A B : Type 0} (m : Result Failure A) (f : A → Result Failure B) (a : A) (r : Result Failure B)
    → m ≡ ok a
    → f a ≡ r
    → Base.◌>>=◌ m f ≡ r
bind-ok m f a r e h = rw e h

module _ (toolkit : Toolkit) (recipe : Recipe) where
  repository_of_parts :
      (values : RenderData) (outs : Tree) (names : List String) (text : String)
      → new_render_data toolkit recipe ≡ ok values
      → layer_outputs toolkit values (layers_of recipe) ≡ ok outs
      → skills_in outs ≡ some names
      → encode_recipe toolkit recipe ≡ ok text
      → repository_of toolkit recipe
        ≡ ok (insert "REAPER.yaml" (file text) (outs ++ links_of names))
  unfolding repository_of
  repository_of_parts values outs names text v o s t =
      bind-ok (new_render_data toolkit recipe) _ values _ v (
        bind-ok (layer_outputs toolkit values (layers_of recipe)) _ outs _ o (
          bind-ok (skills_read (skills_in outs)) _ names _ (ap skills_read s)
            (bind-ok (encode_recipe toolkit recipe) _ text _ t refl)))

module _ (toolkit : Toolkit) (staging : String) (recipe : Recipe) where
  -- The whole repository, in which no name has come twice.
  abbrev pub Complete : Disk → Type 0
  Complete d =
      (tree : Tree) × ((repository_of toolkit recipe ≡ ok tree)
        × (HasUniqueKeys tree × Holds staging (directory tree) d))

  -- Once rendering succeeds, the staging directory holds the repository of the recipe.
  pub render_repository-Ensures :
      Ensures
        (Holds staging (directory []))
        (render_repository toolkit staging recipe)
        (λ done. Complete)
  unfolding Ensures render_repository repository_of
  render_repository-Ensures =
      bind-Ensures _ _ (Holds staging (directory []))
        (λ values d. (new_render_data toolkit recipe ≡ ok values) × Holds staging (directory []) d)
        (λ done. Complete) (lift-Ensures (Holds staging (directory [])) _)
        (λ values d (v, h).
          bind-Ensures _ _ (Holds staging (directory []))
            (λ done. Adds staging [] (layer_outputs toolkit values (layers_of recipe)))
            (λ done. Complete) (render_layers-Ensures toolkit staging values (layers_of recipe) [])
            (λ done d (outs, (o, (u, h))).
              bind-Ensures _ _ (Holds staging (directory outs)) (λ done. AddsLinks staging outs)
                (λ done. Complete) (project_skills-Ensures staging outs)
                (λ projected d (names, (s, (links, (l, (w, h))))).
                  bind-Ensures _ _ (Holds staging (directory (outs ++ links)))
                    (λ text d.
                      (encode_recipe toolkit recipe ≡ ok text)
                      × Holds staging (directory (outs ++ links)) d)
                    (λ done. Complete) (lift-Ensures (Holds staging (directory (outs ++ links))) _)
                    (λ text d (t, h) x y.
                      let same : links_of names ≡ links = cc in
                      (
                        insert "REAPER.yaml" (file text) (outs ++ links),
                        (
                          repository_of_parts toolkit recipe values outs names text v o s t
                              ∙ (ap (λ l. ok (insert "REAPER.yaml" (file text) (outs ++ l))) same),
                          (
                            insert-HasUniqueKeys "REAPER.yaml" (file text) (outs ++ links)
                                (w (u tt)),
                            write-under-Ensures staging (outs ++ links) "REAPER.yaml" (file text) _
                                d h x y,
                          ),
                        ),
                      ))
                    d h)
                d h)
            d h)
