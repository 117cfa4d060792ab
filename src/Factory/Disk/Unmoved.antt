-- ===== src/Factory/Disk/Unmoved.antt =====
-- Calls that leave what a path holds as it was, for internal/factory/render.go and archive.go.
use saas_reaper.Base.{
  String, false, Option, none, some, List, [], ◌∷◌, ◌≡◌, refl, sym, ◌∙◌, ap, subst, ◌⊎◌, inl, inr,
  ◌==◌, Bool-cases, Option-cases, eq_iff,
}
use saas_reaper.Base.Map.{Map, lookup, has, lookup-insert}
use saas_reaper.Factory.Disk.{Node, Moment, Disk, arrive, turn, turn_of}

-- Another process is to put `n` at `path`.
abbrev pub Arrives : String → Node → List Moment → Type 0
Arrives path n [] = ⊥
Arrives path n (m ∷ ms) = (m.arrival ≡ some (path, n)) ⊎ Arrives path n ms

-- What `path` holds, before and after: the same, or what another process put there.
pub IsUnmoved : String → Disk → Disk → Type 0
IsUnmoved path d after =
    ((q : String) (n : Node) → Arrives q n after.moments → Arrives q n d.moments)
    × ((lookup path after.nodes ≡ lookup path d.nodes)
        ⊎ ((lookup path d.nodes ≡ none)
            × ((n : Node) × (Arrives path n d.moments × (lookup path after.nodes ≡ some n)))))

module _ (p : String) where
  pub IsUnmoved-refl : (d : Disk) → IsUnmoved p d d
  unfolding IsUnmoved
  IsUnmoved-refl d = (λ q n a. a, inl refl)

  pub IsUnmoved-trans : (d e f : Disk) → IsUnmoved p d e → IsUnmoved p e f → IsUnmoved p d f
  unfolding IsUnmoved
  IsUnmoved-trans d e f (s, inl x) (t, inl y) = (λ q n a. s q n (t q n a), inl (y ∙ x))
  IsUnmoved-trans d e f (s, inl x) (t, inr (y, (n, (a, z)))) =
      (λ q n a. s q n (t q n a), inr (sym x ∙ y, (n, (s p n a, z))))
  IsUnmoved-trans d e f (s, inr (x, (n, (a, z)))) (t, inl y) =
      (λ q n a. s q n (t q n a), inr (x, (n, (a, y ∙ z))))
  IsUnmoved-trans d e f (s, inr (x, (n, (a, z)))) (t, inr (y, (m, (b, w)))) =
      (λ q n a. s q n (t q n a), let h = sym z ∙ y in cc)

  absent_without : (nodes : Map Node) → has p nodes ≡ false → lookup p nodes ≡ none
  unfolding has
  absent_without nodes h = elim (Option-cases (lookup p nodes)) [
    | inl e ↦ e
    | inr (n, e) ↦ let x = rw e at h in cc
  ]

  arrive-lookup :
      (arrival : Option (String × Node)) (nodes : Map Node)
      → (lookup p (arrive arrival nodes) ≡ lookup p nodes)
        ⊎ ((lookup p nodes ≡ none)
            × ((n : Node) × ((arrival ≡ some (p, n)) × (lookup p (arrive arrival nodes) ≡ some n))))
  arrive-lookup none nodes = inl refl
  arrive-lookup (some (q, n)) nodes = elim (Bool-cases (has q nodes)) [
    | inl e ↦ rw e (inl refl)
    | inr e ↦
        rw (e, lookup-insert q p n nodes)
          (elim (Bool-cases (q == p)) [
            | inl h ↦
                let same = (eq_iff q p).0 h in
                rw h (
                  inr (
                    absent_without nodes (subst (λ q. has q nodes ≡ false) same e),
                    (n, (ap (λ q. some (q, n)) same, refl)),
                  ))
            | inr h ↦ rw h (inl refl)
          ])
  ]

  turn_of-IsUnmoved :
      (ms : List Moment) (nodes : Map Node)
      → IsUnmoved p (record { nodes = nodes; moments = ms }) (turn_of ms nodes).1
  unfolding IsUnmoved
  turn_of-IsUnmoved [] nodes = (λ q n a. a, inl refl)
  turn_of-IsUnmoved (m ∷ ms) nodes = elim (arrive-lookup m.arrival nodes) [
    | inl h ↦ (λ q n a. inr a, inl h)
    | inr (h, (n, (a, z))) ↦ (λ q n a. inr a, inr (h, (n, (inl a, z))))
  ]

  pub turn-IsUnmoved : (d : Disk) → IsUnmoved p d (turn d).1
  unfolding turn
  turn-IsUnmoved d = turn_of-IsUnmoved d.moments d.nodes

  pub write-IsUnmoved :
      (d : Disk) (nodes : Map Node)
      → lookup p nodes ≡ lookup p d.nodes
      → IsUnmoved p d (record d { nodes = nodes })
  unfolding IsUnmoved
  write-IsUnmoved d nodes h = (λ q n a. a, inl h)

  -- A path that is free is so before as well.
  pub free_before :
      (d after : Disk) → IsUnmoved p d after → lookup p after.nodes ≡ none → lookup p d.nodes ≡ none
  unfolding IsUnmoved
  free_before d after (s, inl x) h = sym x ∙ h
  free_before d after (s, inr (x, y)) h = x

  -- A path that is free before and after, as the time goes that another path stays unmoved.
  pub free_throughout :
      (q : String) (d after : Disk)
      → IsUnmoved q d after
      → lookup p d.nodes ≡ none
      → lookup p after.nodes ≡ none
      → IsUnmoved p d after
  unfolding IsUnmoved
  free_throughout q d after u before later = (u.0, inl (later ∙ sym before))

  -- What a path holds, it goes on to hold.
  pub held_after :
      (d after : Disk) (node : Node)
      → IsUnmoved p d after
      → lookup p d.nodes ≡ some node
      → lookup p after.nodes ≡ some node
  unfolding IsUnmoved
  held_after d after node (s, inl x) h = x ∙ h
  held_after d after node (s, inr (x, y)) h = let w = sym x ∙ h in cc
