-- ===== src/Flags/Evaluate/Split.antt =====
-- The percentage rollout: who is in it, and how that changes with the percentage.
use saas_reaper.Base.{
  Option-cases, inl, inr, is_some, ◌↔◌, ℕ, ◌*◌, ◌%◌, ◌^◌, ◌≤◌, String, ◌≡◌, refl, true, false,
  Option, none, some, List, arith,
}
use saas_reaper.Base.Map.{Map}
use saas_reaper.Base.Int64.{pos, to_uint64}
use saas_reaper.Base.Map.{lookup}
use saas_reaper.Flags.Flag.{text, Value, Rollout}
use saas_reaper.Flags.Evaluate.{text_at-eq-some, text_at, bucket, in_bucket, in_rollout}

-- The wrapping arithmetic of the threshold does not wrap at a percentage.
threshold : (p : ℕ) → p ≤ 100 → to_uint64 (pos p) * 100 % 2 ^ 64 ≡ p * 100
unfolding to_uint64
threshold p h = omega arith

text_at_iff :
    (a : String) (context : Map Value)
    → (is_some (text_at a context) ≡ true) ↔ ((s : String) × (lookup a context ≡ some (text s)))
text_at_iff a context = elim (Option-cases (text_at a context)) [
  | inl e ↦ rw e (λ h. cc, λ (s, h). cc (e, (text_at-eq-some a context s).1 h))
  | inr (s, e) ↦ rw e (λ h. (s, (text_at-eq-some a context s).0 e), λ h. refl)
]

module _ (sha256 : String → List ℕ) (key : String) (rollout : Rollout) where
  in_bucket_mono :
      (p q : ℕ) (value : Option String)
      → p ≤ q
      → q ≤ 100
      → in_bucket sha256 key (record rollout { percentage = pos p }) value ≡ true
      → in_bucket sha256 key (record rollout { percentage = pos q }) value ≡ true
  unfolding in_bucket
  in_bucket_mono p q none h k e = cc
  in_bucket_mono p q (some value) h k e = ground (arith, threshold p, threshold q)

  -- Raising the percentage of a rollout, within 0 to 100, never takes a context out of it.
  pub in_rollout_mono :
      (p q : ℕ) (context : Map Value)
      → p ≤ q
      → q ≤ 100
      → in_rollout sha256 key (record rollout { percentage = pos p }) context ≡ true
      → in_rollout sha256 key (record rollout { percentage = pos q }) context ≡ true
  unfolding in_rollout
  in_rollout_mono p q context h k e = in_bucket_mono p q (text_at rollout.attribute context) h k e

  in_bucket_ends :
      (value : Option String)
      → (in_bucket sha256 key (record rollout { percentage = pos 0 }) value ≡ false)
        × (in_bucket sha256 key (record rollout { percentage = pos 100 }) value ≡ is_some value)
  unfolding in_bucket bucket
  in_bucket_ends none = (refl, refl)
  in_bucket_ends (some value) = (ground (arith, threshold 0), ground (arith, threshold 100))

  -- A rollout at 0 percent takes no context in. One at 100 percent takes in exactly those whose
  -- value of the rollout's attribute is a text.
  in_rollout_ends :
      (context : Map Value)
      → (in_rollout sha256 key (record rollout { percentage = pos 0 }) context ≡ false)
        × ((in_rollout sha256 key (record rollout { percentage = pos 100 }) context ≡ true)
            ↔ ((s : String) × (lookup rollout.attribute context ≡ some (text s))))
  unfolding in_rollout
  in_rollout_ends context =
      let (none_in, all_in) = in_bucket_ends (text_at rollout.attribute context) in
      (none_in, rw all_in (text_at_iff rollout.attribute context))
