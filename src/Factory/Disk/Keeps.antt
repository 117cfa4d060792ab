-- ===== src/Factory/Disk/Keeps.antt =====
-- Computations on a disk that leave what a path holds as it was, and those that do so where they
-- fail, for internal/factory/render.go and archive.go.
use saas_reaper.Base.{
  String, Bool, Option, none, some, ◌≡◌, refl, sym, ◌∙◌, ap, subst, ◌⊎◌, inl, inr, ◌≢◌, Result, ok,
  err, Bool-cases, Option-cases,
}
use saas_reaper.Base.Map.{Map, lookup}
use saas_reaper.Factory.Disk.{
  Node, Disk, Failure, incomplete_archive, Files, turn, call, lift, try, finally, ◌>>=◌, stat,
}
use saas_reaper.Factory.Disk.Unmoved.{
  IsUnmoved, IsUnmoved-refl, IsUnmoved-trans, turn-IsUnmoved, write-IsUnmoved, free_before,
}

module _ {A : Type 0} where
  -- The change of a call leaves what the path holds.
  abbrev pub Spares : String → (String → Map Node → Option (A × Map Node)) → Type 0
  Spares p f =
      (s : String) (nodes : Map Node) (a : A) (changed : Map Node)
      → f s nodes ≡ some (a, changed)
      → lookup p changed ≡ lookup p nodes

  -- A call gives what its change gives at the disk of its moment, or it fails and changes nothing.
  pub call-cases :
      (f : String → Map Node → Option (A × Map Node)) (e : Failure) (d : Disk)
      → (call f e d ≡ (err e, (turn d).1))
        ⊎ ((s : String) × ((a : A) × ((nodes : Map Node) × ((f s (turn d).1.nodes ≡ some (a, nodes))
                  × (call f e d ≡ (ok a, record (turn d).1 { nodes = nodes }))))))
  unfolding call
  call-cases f e d = elim (Bool-cases (turn d).0.fails) [
    | inl h ↦ inl (rw h refl)
    | inr h ↦ elim (Option-cases (f (turn d).0.suffix (turn d).1.nodes)) [
      | inl z ↦ inl (rw (h, z) refl)
      | inr ((a, nodes), z) ↦ inr ((turn d).0.suffix, (a, (nodes, (z, rw (h, z) refl))))
    ]
  ]

  pub outcome :
      (r : Result Failure A × Disk)
      → ((a : A) × ((d : Disk) × (r ≡ (ok a, d))))
        ⊎ ((e : Failure) × ((d : Disk) × (r ≡ (err e, d))))
  outcome (ok a, d) = inl (a, (d, refl))
  outcome (err e, d) = inr (e, (d, refl))

  -- However it ends, it leaves what the path holds.
  abbrev pub Keeps : String → Files A → Type 0
  Keeps p m = (d : Disk) → IsUnmoved p d (m d).1

  -- It does so where it fails, but for an archive that could not be taken back.
  abbrev pub FailsQuietly : String → Files A → Type 0
  FailsQuietly p m =
      (d : Disk) (e : Failure) → (m d).0 ≡ err e → e ≢ incomplete_archive → IsUnmoved p d (m d).1

  -- What it gives is as described.
  abbrev pub Yields : (A → Type 0) → Files A → Type 0
  Yields Q m = (d : Disk) (a : A) → (m d).0 ≡ ok a → Q a

  module _ (p : String) where
    pub call-Keeps :
        (f : String → Map Node → Option (A × Map Node)) (e : Failure)
        → Spares p f
        → Keeps p (call f e)
    call-Keeps f e h d = elim (call-cases f e d) [
      | inl x ↦ rw x (turn-IsUnmoved p d)
      | inr (s, (a, (nodes, (z, x)))) ↦ rw x (
          IsUnmoved-trans p d (turn d).1 _ (turn-IsUnmoved p d)
            (write-IsUnmoved p (turn d).1 nodes (h s _ a nodes z)))
    ]

    pub call-FailsQuietly :
        (f : String → Map Node → Option (A × Map Node)) (e : Failure) → FailsQuietly p (call f e)
    call-FailsQuietly f e d x h n = elim (call-cases f e d) [
      | inl y ↦ rw y (turn-IsUnmoved p d)
      | inr (s, (a, (nodes, (z, y)))) ↦ let w = rw y at h in cc
    ]

    pub call-Yields :
        (Q : A → Type 0) (f : String → Map Node → Option (A × Map Node)) (e : Failure)
        → ((s : String) (nodes : Map Node) (a : A) (changed : Map Node)
            → f s nodes ≡ some (a, changed)
            → Q a)
        → Yields Q (call f e)
    call-Yields Q f e h d x y = elim (call-cases f e d) [
      | inl z ↦ let w = rw z at y in cc
      | inr (s, (a, (nodes, (z, w)))) ↦
          let same : a ≡ x = let v = rw w at y in cc in subst Q same (h s _ a nodes z)
    ]

    pub lift-Keeps : (r : Result Failure A) → Keeps p (lift r)
    unfolding lift
    lift-Keeps r d = IsUnmoved-refl p d

    pub Keeps-FailsQuietly : (m : Files A) → Keeps p m → FailsQuietly p m
    Keeps-FailsQuietly m k d e h n = k d

module _ (p : String) where
  pub stat-Keeps : (exists : Map Node → Bool) → Keeps p (stat exists)
  unfolding stat
  stat-Keeps exists d = turn-IsUnmoved p d

  module _ {A : Type 0} where
    pub try-Keeps : (m : Files A) → Keeps p m → Keeps p (try m)
    unfolding try
    try-Keeps m k = k

    pub finally-Keeps :
        (last : Files (Unit {0})) (m : Files A)
        → Keeps p last
        → Keeps p m
        → Keeps p (finally last m)
    unfolding finally
    finally-Keeps last m k l d = IsUnmoved-trans p d (m d).1 _ (l d) (k (m d).1)

    pub finally-FailsQuietly :
        (last : Files (Unit {0})) (m : Files A)
        → Keeps p last
        → FailsQuietly p m
        → FailsQuietly p (finally last m)
    unfolding finally
    finally-FailsQuietly last m k l d e h n = IsUnmoved-trans p d (m d).1 _ (l d e h n) (k (m d).1)

  module _ {A B : Type 0} (m : Files A) (f : A → Files B) where
    -- After a first part that keeps what the path holds, the rest may use what the first part gave.
    pub bind-Keeps_given :
        (Q : A → Type 0)
        → Yields Q m
        → Keeps p m
        → ((a : A) → Q a → Keeps p (f a))
        → Keeps p (m >>= f)
    unfolding ◌>>=◌
    bind-Keeps_given Q y k l d = elim (outcome (m d)) [
      | inl (a, (after, e)) ↦ rw e (
          IsUnmoved-trans p d after _ (let w = k d in rw e at w)
            (l a (y d a (ap (λ r. r.0) e)) after))
      | inr (x, (after, e)) ↦ rw e (let w = k d in rw e at w)
    ]

    pub bind-FailsQuietly_given :
        (Q : A → Type 0)
        → Yields Q m
        → Keeps p m
        → ((a : A) → Q a → FailsQuietly p (f a))
        → FailsQuietly p (m >>= f)
    unfolding ◌>>=◌
    bind-FailsQuietly_given Q y k l d x h n = elim (outcome (m d)) [
      | inl (a, (after, e)) ↦ rw e (
          IsUnmoved-trans p d after _ (let w = k d in rw e at w)
            (l a (y d a (ap (λ r. r.0) e)) after x (rw e at h) n))
      | inr (z, (after, e)) ↦ rw e (let w = k d in rw e at w)
    ]

    pub bind-Keeps : Keeps p m → ((a : A) → Keeps p (f a)) → Keeps p (m >>= f)
    bind-Keeps k l = bind-Keeps_given (λ a. Unit) (λ d a h. tt) k (λ a q. l a)

    pub bind-FailsQuietly : Keeps p m → ((a : A) → FailsQuietly p (f a)) → FailsQuietly p (m >>= f)
    bind-FailsQuietly k l = bind-FailsQuietly_given (λ a. Unit) (λ d a h. tt) k (λ a q. l a)

    -- A first part that fails quietly, before a part that cannot fail.
    pub fails_first :
        FailsQuietly p m
        → ((a : A) (d : Disk) → (b : B) × ((f a d).0 ≡ ok b))
        → FailsQuietly p (m >>= f)
    unfolding ◌>>=◌
    fails_first k l d x h n = elim (outcome (m d)) [
      | inl (a, (after, e)) ↦
          let (b, z) = l a after in
          let w : (f a after).0 ≡ err x = rw e at h in let v = sym w ∙ z in cc
      | inr (z, (after, e)) ↦
          let v = rw e at h in
          let same : z ≡ x = cc in let w = k d x (rw e (ap err same)) n in rw e (rw e at w)
    ]

module _ (p : String) {A : Type 0} where
  -- What `m` gives, it gives only where the path was free.
  abbrev pub NeedsFree : Files A → Type 0
  NeedsFree m = (d : Disk) (a : A) → (m d).0 ≡ ok a → lookup p d.nodes ≡ none

  pub call-NeedsFree :
      (f : String → Map Node → Option (A × Map Node)) (e : Failure)
      → ((s : String) (nodes : Map Node) (a : A) (changed : Map Node)
          → f s nodes ≡ some (a, changed)
          → lookup p nodes ≡ none)
      → NeedsFree (call f e)
  call-NeedsFree f e h d x y = elim (call-cases f e d) [
    | inl z ↦ let w = rw z at y in cc
    | inr (s, (a, (nodes, (z, w)))) ↦
        free_before p d (turn d).1 (turn-IsUnmoved p d) (h s _ a nodes z)
  ]

  pub finally-NeedsFree :
      (last : Files (Unit {0})) (m : Files A) → NeedsFree m → NeedsFree (finally last m)
  unfolding finally
  finally-NeedsFree last m n d a h = n d a h

module _ (p : String) {A B : Type 0} (m : Files A) (f : A → Files B) where
  pub bind-NeedsFree_given :
      (Q : A → Type 0)
      → Yields Q m
      → Keeps p m
      → ((a : A) → Q a → NeedsFree p (f a))
      → NeedsFree p (m >>= f)
  unfolding ◌>>=◌
  bind-NeedsFree_given Q y k l d b h = elim (outcome (m d)) [
    | inl (a, (after, e)) ↦
        free_before p d after (let w = k d in rw e at w)
          (l a (y d a (ap (λ r. r.0) e)) after b (rw e at h))
    | inr (x, (after, e)) ↦ let w = rw e at h in cc
  ]

module _ {A B : Type 0} (m : Files A) (f : A → Files B) where
  pub bind-Yields :
      (Q : A → Type 0) (R : B → Type 0)
      → Yields Q m
      → ((a : A) → Q a → Yields R (f a))
      → Yields R (m >>= f)
  unfolding ◌>>=◌
  bind-Yields Q R y z d b h = elim (outcome (m d)) [
    | inl (a, (after, e)) ↦ z a (y d a (ap (λ r. r.0) e)) after b (rw e at h)
    | inr (x, (after, e)) ↦ let w = rw e at h in cc
  ]

module _ {A B : Type 0} (m : Files A) (f : A → Files B) where
  pub bind-Yields_any : (R : B → Type 0) → ((a : A) → Yields R (f a)) → Yields R (m >>= f)
  bind-Yields_any R z = bind-Yields m f (λ a. Unit) R (λ d a h. tt) (λ a u. z a)
