-- ===== src/Base/Find.antt =====
-- Looking a key up in a list of values that carry their keys. The last value of a key is the one
-- found, as when the list is read into a Go map.
use Prim.Native.String.{String}
use mathlib.Core.Path.{◌≡◌, refl, subst, ◌∙◌}
use mathlib.Core.Logic.{inl, inr}
use mathlib.Core.Bool.{Bool, true, false}
use mathlib.Core.Option.{Option, none, some}
use mathlib.Core.List.{List, [], ◌∷◌, ◌++◌}
use native.Mathlib.Omega.{arith}
use text.Mathlib.Text.{◌==◌}
use text.Mathlib.TextEquality.{eq_iff}
use saas_reaper.Base.Tests.{if◌then◌else◌, or_else, or_else-none, Bool-cases, Option-cases}
use saas_reaper.Base.Lists.{All}
use saas_reaper.Base.Sort.{less, insert_by, sort_by, sort_by_key}

module _ {ℓ} {A : Type ℓ} (p : A → Bool) where
  abbrev pub last_match : List A → Option A
  last_match [] = none
  last_match (x ∷ xs) = or_else (last_match xs) (if p x then some x else none)

  abbrev pub Misses : List A → Type 0
  Misses [] = Unit
  Misses (x ∷ xs) = (p x ≡ false) × Misses xs

  -- At most one element is a match.
  abbrev pub MatchesOnce : List A → Type 0
  MatchesOnce [] = Unit
  MatchesOnce (x ∷ xs) = (p x ≡ true → Misses xs) × MatchesOnce xs

  module _ (before : A → A → Bool) where
    insert_by-Misses :
        (x : A) (xs : List A) → p x ≡ false → Misses xs → Misses (insert_by before x xs)
    unfolding insert_by
    insert_by-Misses x [] h l = (h, tt)
    insert_by-Misses x (y ∷ ys) h l = ground (arith, insert_by-Misses x ys h l.1)

    sort_by-Misses : (xs : List A) → Misses xs → Misses (sort_by before xs)
    unfolding sort_by
    sort_by-Misses [] l = tt
    sort_by-Misses (x ∷ xs) l = insert_by-Misses x (sort_by before xs) l.0 (sort_by-Misses xs l.1)

    last_match-insert_by :
        (x : A) (xs : List A)
        → (p x ≡ true → Misses xs)
        → last_match (insert_by before x xs) ≡ last_match (x ∷ xs)
    unfolding insert_by
    last_match-insert_by x [] l = refl
    last_match-insert_by x (y ∷ ys) l = elim (Bool-cases (before y x)) [
      | inl e ↦ rw e (
          rw (last_match-insert_by x ys (λ h. (l h).1)) (elim (Bool-cases (p x)) [
            | inl h ↦
                let z = (l h).0 in
                rw (h, z)
                  (rw
                    (or_else-none (last_match ys), or_else-none (or_else (last_match ys) (some x)))
                    refl)
            | inr h ↦
                rw
                  (
                    h,
                    or_else-none (or_else (last_match ys) (if p y then some y else none)),
                    or_else-none (last_match ys),
                  )
                  refl
          ]))
      | inr e ↦ rw e refl
    ]

    -- Sorting a list in which at most one element is a match does not change the match.
    pub last_match-sort_by :
        (xs : List A) → MatchesOnce xs → last_match (sort_by before xs) ≡ last_match xs
    unfolding sort_by
    last_match-sort_by [] d = refl
    last_match-sort_by (x ∷ xs) d =
        rw
          (
            last_match-insert_by x (sort_by before xs) (λ h. sort_by-Misses xs (d.0 h)),
            last_match-sort_by xs d.1,
          )
          refl

  -- What holds of every element holds of the match.
  pub last_match-All :
      (P : A → Type 0) (xs : List A) (x : A) → All P xs → last_match xs ≡ some x → P x
  last_match-All P [] x a h = cc
  last_match-All P (y ∷ ys) x a h = elim (Option-cases (last_match ys)) [
    | inl z ↦ elim (Bool-cases (p y)) [
      | inl m ↦ let same : y ≡ x = let w = rw (z, m) at h in cc in subst P same a.0
      | inr m ↦ let w = rw (z, m) at h in cc
    ]
    | inr (w, z) ↦ last_match-All P ys x a.1 (z ∙ rw z at h)
  ]

  pub last_match-append :
      (x : A) (xs : List A) → last_match (xs ++ x ∷ []) ≡ (if p x then some x else last_match xs)
  last_match-append x [] = refl
  last_match-append x (y ∷ ys) =
      rw (last_match-append x ys)
        (elim (Bool-cases (p x)) [ inl h ↦ rw h refl | inr h ↦ rw h refl ])

module _ {ℓ} {A : Type ℓ} (P : A → Type 0) (before : A → A → Bool) where
  All-insert_by : (x : A) (xs : List A) → P x → All P xs → All P (insert_by before x xs)
  unfolding insert_by
  All-insert_by x [] h a = (h, tt)
  All-insert_by x (y ∷ ys) h a = elim (Bool-cases (before y x)) [
    | inl e ↦ rw e (a.0, All-insert_by x ys h a.1)
    | inr e ↦ rw e (h, a)
  ]

  pub All-sort_by : (xs : List A) → All P xs → All P (sort_by before xs)
  unfolding sort_by
  All-sort_by [] a = tt
  All-sort_by (x ∷ xs) a = All-insert_by x (sort_by before xs) a.0 (All-sort_by xs a.1)

module _ {ℓ} {A : Type ℓ} (key : A → String) where
  abbrev pub find_last : String → List A → Option A
  find_last k = last_match (λ x. key x == k)

  -- No value of the list has the key `k`.
  abbrev pub Lacks : String → List A → Type 0
  Lacks k = Misses (λ x. key x == k)

  abbrev pub HasDistinctKeys : List A → Type 0
  HasDistinctKeys [] = Unit
  HasDistinctKeys (x ∷ xs) = Lacks (key x) xs × HasDistinctKeys xs

  HasDistinctKeys-MatchesOnce :
      (k : String) (xs : List A) → HasDistinctKeys xs → MatchesOnce (λ x. key x == k) xs
  HasDistinctKeys-MatchesOnce k [] d = tt
  HasDistinctKeys-MatchesOnce k (x ∷ xs) d = (
    λ h. subst (λ k. Lacks k xs) ((eq_iff (key x) k).0 h) d.0,
    HasDistinctKeys-MatchesOnce k xs d.1,
  )

  -- Sorting a list of distinct keys does not change what is found in it.
  pub find_last-sort_by_key :
      (k : String) (xs : List A)
      → HasDistinctKeys xs
      → find_last k (sort_by_key key xs) ≡ find_last k xs
  unfolding sort_by_key
  find_last-sort_by_key k xs d =
      last_match-sort_by (λ x. key x == k) (λ a b. less (key a) (key b)) xs
        (HasDistinctKeys-MatchesOnce k xs d)
