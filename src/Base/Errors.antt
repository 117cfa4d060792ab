-- ===== src/Base/Errors.antt =====
-- A Go function that returns a value and an error: `ok` where the error is nil, and otherwise the
-- class that `errors.Is` tells apart.
use mathlib.Core.Path.{◌≡◌, refl}
use mathlib.Core.Bool.{Bool, true, false}
use mathlib.Core.Logic.{◌⊎◌, inl, inr, ◌↔◌}

pub data Result {ℓ} (E : Type 0) (A : Type ℓ) : Type ℓ where
  ok : A → Result E A
  err : E → Result E A

infixl 5 ◌>>=◌ ◌>>◌
abbrev pub ◌>>=◌ {ℓ κ} :
    {E : Type 0} {A : Type ℓ} {B : Type κ} → Result E A → (A → Result E B) → Result E B
ok a >>= f = f a
err e >>= f = err e

abbrev pub ◌>>◌ {ℓ κ} :
    {E : Type 0} {A : Type ℓ} {B : Type κ} → Result E A → Result E B → Result E B
m >> k = m >>= λ _. k

-- `if !test { return err }`
abbrev pub guard : {E : Type 0} → Bool → E → Result E (Unit {0})
guard true e = ok tt
guard false e = err e

module _ {ℓ} {E : Type 0} {A : Type ℓ} where
  pub Result-cases : (r : Result E A) → ((a : A) × (r ≡ ok a)) ⊎ ((e : E) × (r ≡ err e))
  Result-cases (ok a) = inl (a, refl)
  Result-cases (err e) = inr (e, refl)

module _ {ℓ κ} {E : Type 0} {P : Type ℓ} where
  -- A chain of checks passes exactly if each of them does, given those before it.
  pub >>_iff_given :
      {Q : Type κ} {m k : Result E (Unit {0})}
      → (m ≡ ok tt) ↔ P
      → (P → (k ≡ ok tt) ↔ Q)
      → ((m >> k) ≡ ok tt) ↔ (P × Q)
  >>_iff_given {m = ok u} p q = (λ h. (p.0 refl, (q (p.0 refl)).0 h), λ h. (q h.0).1 h.1)
  >>_iff_given {m = err e} p q = (λ h. cc, λ h. let x = p.1 h.0 in cc)

  pub >>_iff :
      {Q : Type κ} {m k : Result E (Unit {0})}
      → (m ≡ ok tt) ↔ P
      → (k ≡ ok tt) ↔ Q
      → ((m >> k) ≡ ok tt) ↔ (P × Q)
  >>_iff p q = >>_iff_given p (λ _. q)

module _ {ℓ} {E : Type 0} {P : Type ℓ} where
  pub guard_iff : (b : Bool) (e : E) → (b ≡ true) ↔ P → (guard b e ≡ ok tt) ↔ P
  guard_iff true e p = (λ h. p.0 refl, λ h. refl)
  guard_iff false e p = (λ h. cc, λ h. let x = p.1 h in cc)

module _ {E : Type 0} where
  -- A check that passed lets the rest of the chain through.
  pub guard-then {κ} :
      {A : Type κ} (b : Bool) (e : E) (m : Result E A) (a : A)
      → (guard b e >> m) ≡ ok a
      → (b ≡ true) × (m ≡ ok a)
  guard-then true e m a h = (refl, h)
  guard-then false e m a h = cc

  pub unit-then {κ} :
      {A : Type κ} (m : Result E (Unit {0})) (k : Result E A) (a : A)
      → (m >> k) ≡ ok a
      → (m ≡ ok tt) × (k ≡ ok a)
  unit-then (ok u) k a h = (refl, h)
  unit-then (err e) k a h = cc

  pub bind-then {ℓ κ} :
      {A : Type ℓ} {B : Type κ} (m : Result E A) (f : A → Result E B) (b : B)
      → (m >>= f) ≡ ok b
      → (a : A) × (m ≡ ok a) × (f a ≡ ok b)
  bind-then (ok a) f b h = (a, refl, h)
  bind-then (err e) f b h = cc
