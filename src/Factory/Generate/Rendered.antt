-- ===== src/Factory/Generate/Rendered.antt =====
-- internal/factory/render.go: what the staging directory holds once everything is rendered.
use saas_reaper.Base.{String, true, false, some, ◌≡◌, refl, subst, Result, ok, err}
use saas_reaper.Base.Map.{insert, has}
use saas_reaper.Factory.Disk.{
  Tree, Entry, file, Node, directory, Disk, Failure, call, lift, try, ◌>>=◌, ◌>>◌, Status, found,
  missing, unreadable, under, close, output_collision, uninspected_output, unrendered_output,
  unclosed_output,
}
use saas_reaper.Factory.Disk.Keeps.{Keeps, call-Keeps, try-Keeps}
use saas_reaper.Factory.Disk.Ensures.{
  Ensures, Holds, bind-Ensures, lift-Ensures, call-under-Ensures, keeps-Ensures, holding-Ensures,
  try-Ensures, given, weaken, stat-Ensures,
}
use saas_reaper.Factory.Render.{Toolkit, RenderData, output_name}
use saas_reaper.Factory.Write.{
  write, parsed, entry_exists, expect_missing, all_rendered, render_file,
}
use saas_reaper.Factory.Generate.Staged.{same-Spares}

pub write-under-Ensures :
    (root : String) (tree : Tree) (path : String) (entry : Entry) (e : Failure)
    → Ensures
        (Holds root (directory tree))
        (call (under root (write path entry)) e)
        (λ done. Holds root (directory (insert path entry tree)))
unfolding Ensures
write-under-Ensures root tree path entry e d h a x =
    let (after, (w, k)) = call-under-Ensures root tree (write path entry) e d h a x in
    let same : after ≡ insert path entry tree = cc in
    subst (λ t. Holds root (directory t) (call (under root (write path entry)) e d).1) same k

-- The outcomes of writing and closing, after both.
finish-Ensures :
    (root : String) (node : Node) (X : Type 0) (executed closed : Result Failure (Unit {0}))
    → Ensures
        (λ d. (u : Unit {0}) → executed ≡ ok u → X × Holds root node d)
        (lift executed >> lift closed)
        (λ done d. X × Holds root node d)
unfolding ◌>>=◌ lift Ensures
finish-Ensures root node X (ok u) closed d h a x = h u refl
finish-Ensures root node X (err e) closed d h a x = cc

module _ (toolkit : Toolkit) (staging : String) (values : RenderData) where
  -- The outputs of templates, in order, each of which parses and is rendered to its end.
  pub IsOutput : String → String × String → String × Entry → Type 0
  IsOutput layer (source, body) (path, entry) =
      (path ≡ output_name layer source)
      × ((template : toolkit.Template) × ((toolkit.parse source body ≡ some template)
            × ((toolkit.execute template values).1 ≡ true)
            × (entry ≡ file (toolkit.execute template values).0)))

  expect_missing-Ensures :
      (tree : Tree) (path : String) (status : Status)
      → Ensures
          (λ d.
            (status ≡ missing → entry_exists staging path d.nodes ≡ false)
            × Holds staging (directory tree) d)
          (expect_missing status output_collision uninspected_output)
          (λ done d. (has path tree ≡ false) × Holds staging (directory tree) d)
  unfolding entry_exists lift Ensures
  expect_missing-Ensures tree path found d h a e = cc
  expect_missing-Ensures tree path unreadable d h a e = cc
  expect_missing-Ensures tree path missing d (h, k) a e = (let w = h refl in rw k at w, k)

  module _ (tree : Tree) (path : String) (template : toolkit.Template) where
    -- The tree after the file was created, and after it was written.
    abbrev pub created : Node
    created = directory (insert path (file "") tree)

    abbrev pub rendered : Node
    rendered =
        directory
          (insert path (file (toolkit.execute template values).0) (insert path (file "") tree))

    abbrev pub IsRendered : Type 0
    IsRendered = all_rendered (toolkit.execute template values).1 ≡ ok tt

    execute-Ensures :
        Ensures
          (Holds staging created)
          (call
              (under staging (write path (file (toolkit.execute template values).0)))
              unrendered_output
            >> lift (all_rendered (toolkit.execute template values).1))
          (λ done d. IsRendered × Holds staging rendered d)
    execute-Ensures =
        bind-Ensures _ _ (Holds staging created) (λ done. Holds staging rendered)
          (λ done d. IsRendered × Holds staging rendered d)
          (write-under-Ensures staging (insert path (file "") tree) path _ _)
          (λ done. lift-Ensures (Holds staging rendered) _)

    close-Keeps : Keeps staging (try (call close unclosed_output))
    close-Keeps = search (try-Keeps, call-Keeps, same-Spares)

    write_text-Ensures :
        Ensures
          (Holds staging created)
          (try (
              call
                (under staging (write path (file (toolkit.execute template values).0)))
                unrendered_output
              >> lift (all_rendered (toolkit.execute template values).1))
            >>= λ executed.
                try (call close unclosed_output) >>= λ closed. lift executed >> lift closed)
          (λ done d. IsRendered × Holds staging rendered d)
    write_text-Ensures =
        bind-Ensures _ _ (Holds staging created)
          (λ r d. (u : Unit {0}) → r ≡ ok u → IsRendered × Holds staging rendered d)
          (λ done d. IsRendered × Holds staging rendered d)
          (try-Ensures (Holds staging created) (λ done d. IsRendered × Holds staging rendered d) _
            execute-Ensures)
          (λ executed.
            bind-Ensures _ _ _
              (λ closed d. (u : Unit {0}) → executed ≡ ok u → IsRendered × Holds staging rendered d)
              (λ done d. IsRendered × Holds staging rendered d)
              (keeps-Ensures staging rendered IsRendered executed (try (call close unclosed_output))
                close-Keeps)
              (λ closed. finish-Ensures staging rendered IsRendered executed closed))

  -- A file that is rendered is a new one, and holds all that its template gives.
  module _ (tree : Tree) (source body path : String) where
    abbrev pub Rendered : Disk → Type 0
    Rendered d =
        (template : toolkit.Template) × ((parsed toolkit source body ≡ ok template)
          × ((has path tree ≡ false)
              × (IsRendered tree path template × Holds staging (rendered tree path template) d)))

    pub render_file-Ensures :
        Ensures
          (Holds staging (directory tree))
          (render_file toolkit staging source body path values)
          (λ done. Rendered)
    unfolding render_file
    render_file-Ensures =
        bind-Ensures _ _ (Holds staging (directory tree))
          (λ template d.
            (parsed toolkit source body ≡ ok template) × Holds staging (directory tree) d)
          (λ done. Rendered) (lift-Ensures (Holds staging (directory tree)) _)
          (λ template.
            given _ _ _ (λ done. Rendered)
              (λ parses.
                bind-Ensures _ _ _ (λ made. Holds staging (directory tree)) (λ done. Rendered)
                  (holding-Ensures staging (directory tree) _
                    (call-Keeps staging _ _ (same-Spares staging)))
                  (λ made.
                    bind-Ensures _ _ _
                      (λ status d.
                        (status ≡ missing → entry_exists staging path d.nodes ≡ false)
                        × Holds staging (directory tree) d)
                      (λ done. Rendered) (stat-Ensures staging (directory tree) _)
                      (λ status.
                        bind-Ensures _ _ _
                          (λ u d. (has path tree ≡ false) × Holds staging (directory tree) d)
                          (λ done. Rendered) (expect_missing-Ensures tree path status)
                          (λ u.
                            given _ _ _ (λ done. Rendered)
                              (λ new.
                                bind-Ensures _ _ _ (λ u. Holds staging (created tree path template))
                                  (λ done. Rendered) (write-under-Ensures staging tree path _ _)
                                  (λ u.
                                    weaken _ _
                                      (λ done d.
                                        IsRendered tree path template
                                        × Holds staging (rendered tree path template) d)
                                      (λ done. Rendered) (write_text-Ensures tree path template)
                                      (λ u d h. (template, (parses, (new, h)))))))))))
