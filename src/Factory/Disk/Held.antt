-- ===== src/Factory/Disk/Held.antt =====
-- Computations on a disk that leave a path that holds something as it was, for
-- internal/factory/render.go: what makes directories may fill a path that is free.
use saas_reaper.Base.{String, Option, some, ◌≡◌, ap, inl, inr, ◌≢◌, err}
use saas_reaper.Base.Map.{Map, lookup}
use saas_reaper.Factory.Disk.{Node, Failure, incomplete_archive, Files, Disk, call, turn, ◌>>=◌}
use saas_reaper.Factory.Disk.Unmoved.{turn-IsUnmoved, held_after}
use saas_reaper.Factory.Disk.Keeps.{Keeps, FailsQuietly, Yields, outcome, call-cases}
use saas_reaper.Factory.Disk.Ensures.{Holds}

module _ (p : String) (n : Node) where
  module _ {A : Type 0} where
    -- However it ends, the path goes on to hold the node.
    abbrev pub KeepsHeld : Files A → Type 0
    KeepsHeld m = (d : Disk) → Holds p n d → Holds p n (m d).1

    -- It does so where it fails, but for an archive that could not be taken back.
    abbrev pub FailsHolding : Files A → Type 0
    FailsHolding m =
        (d : Disk) (e : Failure)
        → Holds p n d
        → (m d).0 ≡ err e
        → e ≢ incomplete_archive
        → Holds p n (m d).1

    pub Keeps-KeepsHeld : (m : Files A) → Keeps p m → KeepsHeld m
    Keeps-KeepsHeld m k d h = held_after p d (m d).1 n (k d) h

    pub FailsQuietly-FailsHolding : (m : Files A) → FailsQuietly p m → FailsHolding m
    FailsQuietly-FailsHolding m k d e h f q = held_after p d (m d).1 n (k d e f q) h

    pub call-KeepsHeld :
        (f : String → Map Node → Option (A × Map Node)) (e : Failure)
        → ((s : String) (nodes : Map Node) (a : A) (changed : Map Node)
            → lookup p nodes ≡ some n
            → f s nodes ≡ some (a, changed)
            → lookup p changed ≡ some n)
        → KeepsHeld (call f e)
    call-KeepsHeld f e k d h =
        let now = held_after p d (turn d).1 n (turn-IsUnmoved p d) h in
        elim (call-cases f e d) [
          | inl x ↦ rw x now
          | inr (s, (a, (nodes, (z, x)))) ↦ rw x (k s _ a nodes now z)
        ]

  module _ {A B : Type 0} (m : Files A) (f : A → Files B) where
    pub bind-KeepsHeld : KeepsHeld m → ((a : A) → KeepsHeld (f a)) → KeepsHeld (m >>= f)
    unfolding ◌>>=◌
    bind-KeepsHeld k l d h = elim (outcome (m d)) [
      | inl (a, (after, e)) ↦ rw e (l a after (let w = k d h in rw e at w))
      | inr (x, (after, e)) ↦ rw e (let w = k d h in rw e at w)
    ]

    pub bind-KeepsHeld_given :
        (Q : A → Type 0)
        → Yields Q m
        → KeepsHeld m
        → ((a : A) → Q a → KeepsHeld (f a))
        → KeepsHeld (m >>= f)
    unfolding ◌>>=◌
    bind-KeepsHeld_given Q y k l d h = elim (outcome (m d)) [
      | inl (a, (after, e)) ↦
          rw e (l a (y d a (ap (λ r. r.0) e)) after (let w = k d h in rw e at w))
      | inr (x, (after, e)) ↦ rw e (let w = k d h in rw e at w)
    ]

    pub bind-FailsHolding :
        (Q : A → Type 0)
        → Yields Q m
        → KeepsHeld m
        → ((a : A) → Q a → FailsHolding (f a))
        → FailsHolding (m >>= f)
    unfolding ◌>>=◌
    bind-FailsHolding Q y k l d x h r q = elim (outcome (m d)) [
      | inl (a, (after, e)) ↦
          rw e (l a (y d a (ap (λ r. r.0) e)) after x (let w = k d h in rw e at w) (rw e at r) q)
      | inr (z, (after, e)) ↦ rw e (let w = k d h in rw e at w)
    ]
