-- ===== src/Factory/Generate/Moved.antt =====
-- internal/factory/render.go: the calls of a generation that make, link and move nodes on the disk.
use Prim.Native.String
use saas_reaper.Base.{
  String, false, Option, none, some, [], ◌≡◌, refl, sym, ◌∙◌, ap, subst, inl, inr, Bool-cases,
  Option-cases, ◌==◌, eq_refl, eq_iff,
}
use saas_reaper.Base.Map.{Map, lookup, insert, has, delete, lookup-insert}
use saas_reaper.Factory.Disk.{
  Node, directory, Disk, Failure, call, lift, turn, make_temp, rename, replaceable, hard_link,
}
use saas_reaper.Factory.Disk.Unmoved.{turn-IsUnmoved, held_after}
use saas_reaper.Factory.Disk.Keeps.{call-cases}
use saas_reaper.Factory.Disk.Ensures.{Ensures, Holds, bind-Ensures}
use saas_reaper.Factory.Render.{Toolkit}
use saas_reaper.Factory.Generate.{prepare_destination}
use saas_reaper.Factory.Generate.Published.{hard_link-Spares}
use saas_reaper.Factory.Generate.Undone.{linked-free}

-- A call from a path that holds a node.
call-Ensures :
    {A : Type 0} (root : String) (node : Node) (f : String → Map Node → Option (A × Map Node))
    (e : Failure) (Q : A → Disk → Type 0)
    → ((s : String) (a : A) (d : Disk) (nodes : Map Node)
        → lookup root d.nodes ≡ some node
        → f s d.nodes ≡ some (a, nodes)
        → Q a (record d { nodes = nodes }))
    → Ensures (Holds root node) (call f e) Q
unfolding Ensures
call-Ensures root node f e Q k d h a x = elim (call-cases f e d) [
  | inl z ↦ let w = rw z at x in cc
  | inr (s, (b, (nodes, (z, w)))) ↦
      let same : b ≡ a = let v = rw w at x in cc in
      rw w (
        subst (λ a. Q a (record (turn d).1 { nodes = nodes })) same
          (k s b (turn d).1 nodes (held_after root d (turn d).1 node (turn-IsUnmoved root d) h) z))
]

free_apart :
    (root path : String) (node : Node) (nodes : Map Node)
    → lookup root nodes ≡ some node
    → lookup path nodes ≡ none
    → (path == root) ≡ false
free_apart root path node nodes h free = elim (Bool-cases (path == root)) [
  | inr e ↦ e
  | inl e ↦ let w = sym (subst (λ q. lookup q nodes ≡ none) ((eq_iff path root).0 e) free) ∙ h in cc
]

pub free_unless_has :
    (path : String) (nodes : Map Node) → has path nodes ≡ false → lookup path nodes ≡ none
unfolding has
free_unless_has path nodes h = elim (Option-cases (lookup path nodes)) [
  | inl e ↦ e
  | inr (n, e) ↦ let w = rw e at h in cc
]

-- A new name is another than one that is taken.
pub make_temp-Ensures :
    (root : String) (node : Node) (prefix : String) (new : Node) (e : Failure)
    → Ensures
        (Holds root node)
        (call (make_temp prefix new) e)
        (λ path d. ((path == root) ≡ false) × Holds root node d)
unfolding make_temp
make_temp-Ensures root node prefix new e = call-Ensures root node _ e _ (λ s a d nodes h x.
    elim (Bool-cases (has (String.◌++◌ prefix s) d.nodes)) [
      | inl y ↦ let w = rw y at x in cc
      | inr y ↦
          let apart =
            free_apart root (String.◌++◌ prefix s) node d.nodes h
              (free_unless_has (String.◌++◌ prefix s) d.nodes y) in
          let same : String.◌++◌ prefix s ≡ a = let w = rw y at x in cc in
          let written : insert (String.◌++◌ prefix s) new d.nodes ≡ nodes =
            let w = rw y at x in cc in
          (
            subst (λ a. (a == root) ≡ false) same apart,
            subst (λ nodes. lookup root nodes ≡ some node) written
                (rw (lookup-insert (String.◌++◌ prefix s) root new d.nodes, apart) h),
          )
    ])

pub hard_link-Ensures :
    (root : String) (node : Node) (from to : String) (e : Failure)
    → Ensures (Holds root node) (call (hard_link from to) e) (λ done. Holds root node)
unfolding hard_link
hard_link-Ensures root node from to e = call-Ensures root node _ e _ (λ s a d nodes h x.
    let free = linked-free to d.nodes (lookup from d.nodes) nodes x in
    hard_link-Spares root to (free_apart root to node d.nodes h free) from s d.nodes a nodes x ∙ h)

pub rename-Ensures :
    (root : String) (node : Node) (to : String) (e : Failure)
    → Ensures (Holds root node) (call (rename root to) e) (λ done. Holds to node)
unfolding rename
rename-Ensures root node to e = call-Ensures root node _ e _ (λ s a d nodes h x.
    elim (Bool-cases (replaceable (lookup to d.nodes))) [
      | inl y ↦
          let w = rw (h, y) at x in
          let same : insert to node (delete root d.nodes) ≡ nodes = cc in
          subst (λ nodes. lookup to nodes ≡ some node) same
            (rw (lookup-insert to to node (delete root d.nodes), eq_refl to) refl)
      | inr y ↦ let w = rw (h, y) at x in cc
    ])

-- A directory that was just made is there.
made-Ensures :
    (prefix : String) (node : Node) (e : Failure)
    → Ensures (λ d. Unit) (call (make_temp prefix node) e) (λ path. Holds path node)
unfolding Ensures make_temp
made-Ensures prefix node e d h a x = elim (call-cases (make_temp prefix node) e d) [
  | inl z ↦ let w = rw z at x in cc
  | inr (s, (b, (nodes, (z, w)))) ↦
      elim (Bool-cases (has (String.◌++◌ prefix s) (turn d).1.nodes)) [
        | inl y ↦ let v = rw y at z in cc
        | inr y ↦
            let path : String.◌++◌ prefix s ≡ a = let v = rw w at x in let u = rw y at z in cc in
            let same : insert (String.◌++◌ prefix s) node (turn d).1.nodes ≡ nodes =
              let u = rw y at z in cc in
            rw w (
              subst (λ nodes. lookup a nodes ≡ some node) same
                (subst
                  (λ a. lookup a (insert (String.◌++◌ prefix s) node (turn d).1.nodes) ≡ some node)
                  path
                  (rw
                    (
                      lookup-insert (String.◌++◌ prefix s) (String.◌++◌ prefix s) node _,
                      eq_refl (String.◌++◌ prefix s),
                    )
                    refl)))
      ]
]

module _ (toolkit : Toolkit) (destination : String) where
  abbrev pub Staged : String × String → Disk → Type 0
  Staged prepared = Holds prepared.1 (directory [])

  pub prepare_destination-Ensures :
      (delivery : String)
      → Ensures (λ d. Unit) (prepare_destination toolkit destination delivery) Staged
  unfolding Ensures prepare_destination lift
  prepare_destination-Ensures delivery =
      bind-Ensures _ _ _ (λ a d. Unit) Staged (λ d h a e. tt)
        (λ a.
          bind-Ensures _ _ _ (λ a d. Unit) Staged (λ d h a e. tt)
            (λ pack.
              bind-Ensures _ _ _ (λ a d. Unit) Staged (λ d h a e. tt)
                (λ available.
                  bind-Ensures _ _ _ (λ a d. Unit) Staged (λ d h a e. tt)
                    (λ made.
                      bind-Ensures _ _ _ (λ path. Holds path (directory [])) Staged
                        (made-Ensures _ _ _)
                        (λ staging d h p e.
                          let same : (a, staging) ≡ p = cc in
                          let v : staging ≡ p.1 = ap (λ q. q.1) same in
                          subst (λ q. Holds q (directory []) d) v h)))))
