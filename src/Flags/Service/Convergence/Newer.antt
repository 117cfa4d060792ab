-- ===== src/Flags/Service/Convergence/Newer.antt =====
-- Lemmas on revisions, on lists of pending publications, and on which definition is newer, for the
-- concurrent publications of internal/flags/publish.go.
use saas_reaper.Base.{
  String, ◌≡◌, ◌⊎◌, inl, inr, refl, ap, true, ◌&&◌, Option, none, some, List, [], ◌∷◌, ◌++◌, ◌==◌,
  eq_iff, arith, All, Bool-cases,
}
use saas_reaper.Base.Int64.{pos_part, neg_part, ℤ, pos, inc, inc-lt, leb_ℤ, ◌≤ℤ◌, ◌<ℤ◌, max_int64}
use saas_reaper.Flags.Flag.{Flag, copy}
use saas_reaper.Flags.Authority.{revision_of}
use saas_reaper.Flags.Snapshot.Laws.{newer}
use mathlib.Core.List.{Memᴰ}

pub All-map :
    {A : Type 0} (P Q : A → Type 0) (xs : List A) → ((a : A) → P a → Q a) → All P xs → All Q xs
All-map P Q [] f h = tt
All-map P Q (x ∷ xs) f h = (f x h.0, All-map P Q xs f h.1)

pub All-drop :
    {A : Type 0} (P : A → Type 0) (before : List A) (y : A) (after : List A)
    → All P (before ++ y ∷ after)
    → P y × All P (before ++ after)
All-drop P [] y after h = h
All-drop P (x ∷ before) y after h = let r = All-drop P before y after h.1 in (r.0, (h.0, r.1))

pub mem-nil : {A : Type 0} {x : A} → Memᴰ x [] → ⊥
mem-nil m = elim m [ ]

pub mem-drop :
    {A : Type 0} (x y : A) (before after : List A)
    → Memᴰ x (before ++ y ∷ after)
    → (x ≡ y) ⊎ Memᴰ x (before ++ after)
mem-drop x y [] after (Memᴰ.head e) = inl e
mem-drop x y [] after (Memᴰ.tail m) = inr m
mem-drop x y (z ∷ before) after (Memᴰ.head e) = inr (Memᴰ.head e)
mem-drop x y (z ∷ before) after (Memᴰ.tail m) = elim (mem-drop x y before after m) [
  | inl e ↦ inl e
  | inr r ↦ inr (Memᴰ.tail r)
]

-- The stored definition is as new as `p`, and is `p` if the revisions are equal.
abbrev pub Covers : Option Flag → Flag → Type 0
Covers none p = ⊥
Covers (some g) p = (p.revision ≤ℤ g.revision) × (p.revision ≡ g.revision → p ≡ g)

-- A newer definition covers what the one before it covered.
pub Covers-inc :
    (o : Option Flag) (p g : Flag) (expected : ℤ)
    → Covers o p
    → revision_of o ≡ expected
    → g.revision ≡ inc expected
    → expected <ℤ pos max_int64
    → Covers (some g) p
Covers-inc none p g expected c r e h = elim c [ ]
Covers-inc (some q) p g expected c r e h =
    let up = inc-lt expected h in
    let below : p.revision <ℤ g.revision =
      omega (arith, ap pos_part r, ap neg_part r, ap pos_part e, ap neg_part e) in
    (omega arith, λ same. absurd (omega (arith, ap pos_part same, ap neg_part same)))

pub both : (a b c d : String) → (a == b && c == d) ≡ true → (a ≡ b) × (c ≡ d)
both a b c d h = ground (arith, eq_iff a b, eq_iff c d)

pub both_self : (a b c d : String) → a ≡ b → c ≡ d → (a == b && c == d) ≡ true
both_self a b c d h k = ground (arith, eq_iff a b, eq_iff c d)

pub newer_kept : (g flag : Flag) → flag.revision ≤ℤ g.revision → newer (some g) flag ≡ some g
newer_kept g flag h = ground arith

pub newer-cases :
    (o : Option Flag) (flag : Flag)
    → copy flag ≡ flag
    → (newer o flag ≡ some flag)
      ⊎ ((p : Flag) × (o ≡ some p) × (flag.revision ≤ℤ p.revision) × (newer o flag ≡ some p))
newer-cases none flag c = inl (ap some c)
newer-cases (some p) flag c = elim (Bool-cases (leb_ℤ flag.revision p.revision)) [
  | inl e ↦ inr (p, refl, ground arith, rw e)
  | inr e ↦ inl (rw e (ap some c))
]
