-- ===== src/Base/Durable.antt =====
-- Tables in a database, and transactions over them. Which statements fail is not decided here: each
-- transaction to come has a plan, and reads have a flag.
use Prim.Native.Nat.{ℕ}
use mathlib.Core.Path.{◌≡◌, refl}
use mathlib.Core.Bool.{Bool, false, not}
use mathlib.Core.List.{List, [], ◌∷◌}
use saas_reaper.Base.Errors.{Result, ok, err, guard}

-- Whether the statement of a number fails.
abbrev pub Plan : Type 0
Plan = ℕ → Bool

-- `plans` has a plan for each of the transactions to come; after them no statement fails.
pub record Durable (T : Type 0) : Type 0 where
  pub tables : T
  pub plans : List Plan
  pub unreadable : Bool

abbrev pub first_plan : List Plan → Plan
first_plan [] = λ n. false
first_plan (plan ∷ plans) = plan

abbrev pub later_plans : List Plan → List Plan
later_plans [] = []
later_plans (plan ∷ plans) = plans

module _ {E : Type 0} where
  unfoldable pub exec : E → Plan → ℕ → Result E (Unit {0})
  exec e plan n = guard (not (plan n)) e

  module _ {A T : Type 0} where
    -- A step of a transaction that has written `t` so far.
    abbrev pub within : T → Result E A → Result (E × T) A
    within t (ok a) = ok a
    within t (err e) = err (e, t)

    pub within-ok : (t : T) (r : Result E A) (a : A) → within t r ≡ ok a → r ≡ ok a
    within-ok t (ok b) a h = let same : b ≡ a = cc in rw same refl
    within-ok t (err e) a h = cc

    -- The database after a transaction: what it wrote if it was committed; if it failed, what it had
    -- written by then is rolled back, by the deferred Rollback.
    unfoldable pub ended : Result (E × T) (A × T) → Durable T → Result E A × Durable T
    ended (err (e, t)) db = (err e, record db { plans = later_plans db.plans })
    ended (ok (a, t)) db = (ok a, record db { tables = t; plans = later_plans db.plans })

    pub ended-ok :
        (r : Result (E × T) (A × T)) (db : Durable T) (a : A)
        → (ended r db).0 ≡ ok a
        → (t : T) × (r ≡ ok (a, t)) × ((ended r db).1.tables ≡ t)
    unfolding ended
    ended-ok (ok (b, t)) db a h = (t, let x : b ≡ a = cc in rw x refl, refl)
    ended-ok (err (e, t)) db a h = cc

    pub ended-err :
        (r : Result (E × T) (A × T)) (db : Durable T) (e : E)
        → (ended r db).0 ≡ err e
        → (ended r db).1.tables ≡ db.tables
    unfolding ended
    ended-err (ok (b, t)) db e h = cc
    ended-err (err (x, t)) db e h = refl
