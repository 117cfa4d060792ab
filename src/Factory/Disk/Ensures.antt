-- ===== src/Factory/Disk/Ensures.antt =====
-- What holds after a computation on a disk that succeeds, for internal/factory/render.go and
-- archive.go.
use saas_reaper.Base.{
  String, Bool, false, Option, none, some, ◌≡◌, refl, ◌∙◌, ap, subst, inl, inr, Result, ok,
  Bool-cases, eq_refl,
}
use saas_reaper.Base.Map.{Map, lookup, insert, lookup-insert}
use saas_reaper.Factory.Disk.{
  Tree, Node, directory, Disk, Failure, Files, call, lift, try, ◌>>=◌, missing, stat, turn, under,
  look, written, seen,
}
use saas_reaper.Factory.Disk.Unmoved.{turn-IsUnmoved, held_after}
use saas_reaper.Factory.Disk.Keeps.{Keeps, outcome, call-cases}

module _ {A : Type 0} where
  -- From a disk as `P` says, `m` gives what `Q` says, if it succeeds.
  unfoldable pub Ensures : (Disk → Type 0) → Files A → (A → Disk → Type 0) → Type 0
  Ensures P m Q = (d : Disk) → P d → (a : A) → (m d).0 ≡ ok a → Q a (m d).1

  pub lift-Ensures :
      (P : Disk → Type 0) (r : Result Failure A) → Ensures P (lift r) (λ a d. (r ≡ ok a) × P d)
  unfolding lift Ensures
  lift-Ensures P r d h a e = (e, h)

module _ {A B : Type 0} (m : Files A) (f : A → Files B) where
  pub bind-Ensures :
      (P : Disk → Type 0) (Q : A → Disk → Type 0) (R : B → Disk → Type 0)
      → Ensures P m Q
      → ((a : A) → Ensures (Q a) (f a) R)
      → Ensures P (m >>= f) R
  unfolding ◌>>=◌ Ensures
  bind-Ensures P Q R h k d p b e = elim (outcome (m d)) [
    | inl (a, (after, z)) ↦
        let q = h d p a (ap (λ r. r.0) z) in rw z (k a after (rw z at q) b (rw z at e))
    | inr (x, (after, z)) ↦ let w = rw z at e in cc
  ]

-- The directory `root` holds `tree`.
abbrev pub Holds : String → Node → Disk → Type 0
Holds root node d = lookup root d.nodes ≡ some node

written-Holds :
    {A : Type 0} (root : String) (nodes : Map Node) (result : Option (A × Tree)) (a : A)
    (changed : Map Node)
    → written root nodes result ≡ some (a, changed)
    → (after : Tree) × ((result ≡ some (a, after)) × (lookup root changed ≡ some (directory after)))
written-Holds root nodes none a changed h = cc
written-Holds root nodes (some (b, tree)) a changed h =
    let same : b ≡ a = cc in
    let x : insert root (directory tree) nodes ≡ changed = cc in
    (
      tree,
      (
        ap (λ b. some (b, tree)) same,
        subst (λ changed. lookup root changed ≡ some (directory tree)) x
            (rw (lookup-insert root root (directory tree) nodes, eq_refl root) refl),
      ),
    )

module _ (root : String) (tree : Tree) {A : Type 0} where
  pub call-under-Ensures :
      (f : Tree → Option (A × Tree)) (e : Failure)
      → Ensures
          (Holds root (directory tree))
          (call (under root f) e)
          (λ a d. (after : Tree) × ((f tree ≡ some (a, after)) × Holds root (directory after) d))
  unfolding under Ensures
  call-under-Ensures f e d h a x = elim (call-cases (under root f) e d) [
    | inl z ↦ let w = rw z at x in cc
    | inr (s, (b, (nodes, (z, w)))) ↦
        let same : b ≡ a = let v = rw w at x in cc in
        let kept = held_after root d (turn d).1 (directory tree) (turn-IsUnmoved root d) h in
        rw w (
          subst
            (λ a.
              (after : Tree) × ((f tree ≡ some (a, after))
                × Holds root (directory after) (record (turn d).1 { nodes = nodes })))
            same (written-Holds root (turn d).1.nodes (f tree) b nodes (rw kept at z)))
  ]

module _ (root : String) {A : Type 0} where
  seen-Holds :
      (nodes : Map Node) (result : Option A) (a : A) (changed : Map Node)
      → seen nodes result ≡ some (a, changed)
      → (result ≡ some a) × (nodes ≡ changed)
  seen-Holds nodes none a changed h = cc
  seen-Holds nodes (some b) a changed h = (cc, cc)

  pub call-look-Ensures :
      (tree : Tree) (f : Tree → Option A) (e : Failure)
      → Ensures
          (Holds root (directory tree))
          (call (look root f) e)
          (λ a d. (f tree ≡ some a) × Holds root (directory tree) d)
  unfolding look Ensures
  call-look-Ensures tree f e d h a x = elim (call-cases (look root f) e d) [
    | inl z ↦ let w = rw z at x in cc
    | inr (s, (b, (nodes, (z, w)))) ↦
        let same : b ≡ a = let v = rw w at x in cc in
        let kept = held_after root d (turn d).1 (directory tree) (turn-IsUnmoved root d) h in
        let (r, n) = seen-Holds (turn d).1.nodes (f tree) b nodes (rw kept at z) in
        rw w (r ∙ ap some same, subst (λ nodes. lookup root nodes ≡ some (directory tree)) n kept)
  ]

  -- What leaves the directory alone leaves it there, also under a condition.
  pub keeps-Ensures :
      (node : Node) (X : Type 0) (r : Result Failure (Unit {0})) (m : Files A)
      → Keeps root m
      → Ensures
          (λ d. (u : Unit {0}) → r ≡ ok u → X × Holds root node d)
          m
          (λ a d. (u : Unit {0}) → r ≡ ok u → X × Holds root node d)
  unfolding Ensures
  keeps-Ensures node X r m k d h a x u c =
      ((h u c).0, held_after root d (m d).1 node (k d) (h u c).1)

  pub holding-Ensures :
      (node : Node) (m : Files A)
      → Keeps root m
      → Ensures (Holds root node) m (λ a d. Holds root node d)
  unfolding Ensures
  holding-Ensures node m k d h a x = held_after root d (m d).1 node (k d) h

module _ {A : Type 0} where
  pub try-Ensures :
      (P : Disk → Type 0) (Q : A → Disk → Type 0) (m : Files A)
      → Ensures P m Q
      → Ensures P (try m) (λ r d. (a : A) → r ≡ ok a → Q a d)
  unfolding try Ensures
  try-Ensures P Q m k d h r x a e = k d h a (let same : (m d).0 ≡ r = cc in same ∙ e)

  -- What is known before, of no disk, may be used.
  pub given :
      (X : Type 0) (P : Disk → Type 0) (m : Files A) (Q : A → Disk → Type 0)
      → (X → Ensures P m Q)
      → Ensures (λ d. X × P d) m Q
  unfolding Ensures
  given X P m Q k d h a e = k h.0 d h.1 a e

  pub weaken :
      (P : Disk → Type 0) (m : Files A) (Q R : A → Disk → Type 0)
      → Ensures P m Q
      → ((a : A) (d : Disk) → Q a d → R a d)
      → Ensures P m R
  unfolding Ensures
  weaken P m Q R k w d h a e = w a _ (k d h a e)

pub stat-Ensures :
    (root : String) (node : Node) (exists : Map Node → Bool)
    → Ensures
        (Holds root node)
        (stat exists)
        (λ status d. (status ≡ missing → exists d.nodes ≡ false) × Holds root node d)
unfolding stat Ensures
stat-Ensures root node exists d h a x = (
  λ e. elim (Bool-cases (turn d).0.fails) [
    | inl z ↦ let w = rw (z, e) at x in cc
    | inr z ↦ elim (Bool-cases (exists (turn d).1.nodes)) [
      | inl y ↦ let w = rw (z, y, e) at x in cc
      | inr y ↦ y
    ]
  ],
  held_after root d (turn d).1 node (turn-IsUnmoved root d) h,
)
