-- ===== src/Flags/Flag/Copy.antt =====
-- Copies of flag definitions (`Copy` in internal/flags/flag.go).
use saas_reaper.Base.{String, ◌≡◌, refl, sym, ap, ◌∙◌, false, [], ◌∷◌, ◌++◌, arith, ◌==◌, eq_iff}
use saas_reaper.Base.Map.{Map, insert, IsAbsent, HasUniqueKeys, insert-HasUniqueKeys}
use saas_reaper.Flags.Flag.{Value, Flag, copy_variants, copy}
use mathlib.Core.List.{append_assoc}

insert_absent :
    {V : Type 0} (k : String) (v : V) (m : Map V) → IsAbsent k m → insert k v m ≡ m ++ (k, v) ∷ []
unfolding insert
insert_absent k v [] a = refl
insert_absent k v ((j, w) ∷ m) a = ground (arith, insert_absent k v m a.1)

abbrev AllAbsent : Map Value → Map Value → Type 0
AllAbsent [] n = Unit
AllAbsent ((k, v) ∷ m) n = IsAbsent k n × AllAbsent m n

IsAbsent-append :
    (k j : String) (v : Value) (n : Map Value)
    → IsAbsent k n
    → (j == k) ≡ false
    → IsAbsent k (n ++ (j, v) ∷ [])
IsAbsent-append k j v [] a h = (h, tt)
IsAbsent-append k j v ((i, w) ∷ n) a h = (a.0, IsAbsent-append k j v n a.1 h)

AllAbsent-append :
    (j : String) (v : Value) (m n : Map Value)
    → IsAbsent j m
    → AllAbsent m n
    → AllAbsent m (n ++ (j, v) ∷ [])
AllAbsent-append j v [] n a b = tt
AllAbsent-append j v ((k, w) ∷ m) n a b = (
  IsAbsent-append k j v n b.0 (ground (arith, eq_iff k j, eq_iff j k)),
  AllAbsent-append j v m n a.1 b.1,
)

AllAbsent-nil : (m : Map Value) → AllAbsent m []
AllAbsent-nil [] = tt
AllAbsent-nil ((k, v) ∷ m) = (tt, AllAbsent-nil m)

copy_variants-append :
    (n m : Map Value) → HasUniqueKeys m → AllAbsent m n → copy_variants n m ≡ n ++ m
unfolding copy_variants
copy_variants-append n [] u a = sym (mathlib.Core.List.append-nil n)
copy_variants-append n ((k, v) ∷ m) u a =
    ap (λ c. copy_variants c m) (insert_absent k v n a.0)
    ∙ (copy_variants-append (n ++ (k, v) ∷ []) m u.1 (AllAbsent-append k v m n u.0 a.1)
        ∙ append_assoc n ((k, v) ∷ []) m)

copy_variants-HasUniqueKeys :
    (n m : Map Value) → HasUniqueKeys n → HasUniqueKeys (copy_variants n m)
unfolding copy_variants
copy_variants-HasUniqueKeys n [] u = u
copy_variants-HasUniqueKeys n ((k, v) ∷ m) u =
    copy_variants-HasUniqueKeys (insert k v n) m (insert-HasUniqueKeys k v n u)

-- A copy of a flag whose variants are a Go map, one entry to a name, is equal to the flag.
pub copy_lem : (f : Flag) → HasUniqueKeys f.variants → copy f ≡ f
unfolding copy
copy_lem f u =
    ap (λ m. record f { variants = m })
      (copy_variants-append [] f.variants u (AllAbsent-nil f.variants))

-- Copying twice gives what copying once gives.
pub copy-copy : (f : Flag) → copy (copy f) ≡ copy f
unfolding copy
copy-copy f = copy_lem (copy f) (copy_variants-HasUniqueKeys [] f.variants tt)
