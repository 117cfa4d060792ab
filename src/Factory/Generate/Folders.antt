-- ===== src/Factory/Generate/Folders.antt =====
-- internal/factory/render.go: the directories that a generation makes for its destination.
use saas_reaper.Base.{
  String, false, Option, none, some, List, [], ◌∷◌, ◌≡◌, refl, sym, ◌∙◌, subst, inl, inr, ◌==◌, ok,
  Bool-cases, eq_iff,
}
use saas_reaper.Base.Map.{Map, lookup, insert, lookup-insert}
use saas_reaper.Factory.Catalog.{is_listed}
use saas_reaper.Factory.Disk.{
  Node, archive, other_file, directory, Failure, lift, made, make_folder, make_folders,
}
use saas_reaper.Factory.Disk.Keeps.{Keeps, Spares, lift-Keeps, call-Keeps, bind-Keeps}
use saas_reaper.Factory.Disk.Held.{KeepsHeld, Keeps-KeepsHeld, call-KeepsHeld, bind-KeepsHeld}

made_elsewhere :
    (p path : String) (nodes : Map Node) (holds : Option Node) (a : Unit {0}) (changed : Map Node)
    → (path == p) ≡ false
    → made path nodes holds ≡ some (a, changed)
    → lookup p changed ≡ lookup p nodes
made_elsewhere p path nodes none a changed apart h =
    let x : insert path (directory []) nodes ≡ changed = cc in
    subst (λ changed. lookup p changed ≡ lookup p nodes) x
      (rw (lookup-insert path p (directory []) nodes, apart) refl)
made_elsewhere p path nodes (some (directory tree)) a changed apart h =
    let x : nodes ≡ changed = cc in rw x refl
made_elsewhere p path nodes (some (archive contents)) a changed apart h = cc
made_elsewhere p path nodes (some (other_file text)) a changed apart h = cc

make_folder-Spares : (p path : String) → (path == p) ≡ false → Spares p (make_folder path)
unfolding make_folder
make_folder-Spares p path apart s nodes a changed h =
    made_elsewhere p path nodes (lookup path nodes) a changed apart h

pub make_folders-Keeps :
    (p : String) (paths : List String) (e : Failure)
    → is_listed p paths ≡ false
    → Keeps p (make_folders paths e)
make_folders-Keeps p [] e h = lift-Keeps p _
make_folders-Keeps p (path ∷ paths) e h = elim (Bool-cases (path == p)) [
  | inl x ↦ let w = rw x at h in cc
  | inr x ↦
      bind-Keeps p _ _ (call-Keeps p _ _ (make_folder-Spares p path x))
        (λ done. make_folders-Keeps p paths e (rw x at h))
]

made_again :
    (p : String) (nodes : Map Node) (n : Node) (a : Unit {0}) (changed : Map Node) (path : String)
    → made path nodes (some n) ≡ some (a, changed)
    → lookup p changed ≡ lookup p nodes
made_again p nodes (directory tree) a changed path h = let x : nodes ≡ changed = cc in rw x refl
made_again p nodes (archive contents) a changed path h = cc
made_again p nodes (other_file text) a changed path h = cc

-- A directory that is there is not made again.
made_held :
    (p path : String) (n : Node) (nodes : Map Node) (a : Unit {0}) (changed : Map Node)
    → lookup p nodes ≡ some n
    → made path nodes (lookup path nodes) ≡ some (a, changed)
    → lookup p changed ≡ some n
made_held p path n nodes a changed held h = elim (Bool-cases (path == p)) [
  | inr apart ↦ made_elsewhere p path nodes (lookup path nodes) a changed apart h ∙ held
  | inl x ↦
      let here = subst (λ q. lookup q nodes ≡ some n) (sym ((eq_iff path p).0 x)) held in
      made_again p nodes n a changed path (rw here at h) ∙ held
]

make_folder-held :
    (p path : String) (n : Node) (s : String) (nodes : Map Node) (a : Unit {0}) (changed : Map Node)
    → lookup p nodes ≡ some n
    → make_folder path s nodes ≡ some (a, changed)
    → lookup p changed ≡ some n
unfolding make_folder
make_folder-held p path n s nodes a changed held h = made_held p path n nodes a changed held h

-- Making the directories takes nothing away.
pub make_folders-KeepsHeld :
    (p : String) (n : Node) (paths : List String) (e : Failure)
    → KeepsHeld p n (make_folders paths e)
make_folders-KeepsHeld p n [] e = Keeps-KeepsHeld p n (lift (ok tt)) (lift-Keeps p (ok tt))
make_folders-KeepsHeld p n (path ∷ paths) e =
    bind-KeepsHeld p n _ _ (call-KeepsHeld p n (make_folder path) e (make_folder-held p path n))
      (λ done. make_folders-KeepsHeld p n paths e)
