-- ===== src/Base/Text.antt =====
-- What the program uses of Go's `strings` and `unicode`, over the native `String`.
use Prim.Native.Char.{code}
use Prim.Native.String.{String}
use Prim.Native.String
use Prim.Native.String.append
use Prim.Native.Nat.{ℕ}
use mathlib.Core.Path.{◌≡◌, refl}
use native.Mathlib.Omega.{arith}
use mathlib.Core.Bool.{Bool, true, false, ◌&&◌, ◌||◌}
use mathlib.Core.List.{List, [], ◌∷◌}
use saas_reaper.Base.Tests.{eqb, leb, if◌then◌else◌}
use mathlib.Core.Option.{Option, none, some}

-- The runes that `range` yields.
abbrev pub codes : String → List ℕ
codes String.[] = []
codes (String.◌∷◌ c s) = code c ∷ codes s

-- unicode.IsSpace
abbrev pub is_space : ℕ → Bool
is_space c =
    leb 9 c && leb c 13
    || eqb c 32
    || eqb c 0x85
    || eqb c 0xa0
    || eqb c 0x1680
    || leb 0x2000 c && leb c 0x200a
    || eqb c 0x2028
    || eqb c 0x2029
    || eqb c 0x202f
    || eqb c 0x205f
    || eqb c 0x3000

-- strings.TrimSpace(s) == ""
abbrev pub is_blank : String → Bool
is_blank String.[] = true
is_blank (String.◌∷◌ c s) = is_space (code c) && is_blank s

-- strings.HasPrefix(s, c) for one ASCII character `c`
abbrev pub starts_with_code : ℕ → List ℕ → Bool
starts_with_code c [] = false
starts_with_code c (d ∷ ds) = eqb d c

-- strings.HasSuffix(s, c) for one ASCII character `c`
abbrev pub ends_with_code : ℕ → List ℕ → Bool
ends_with_code c [] = false
ends_with_code c (d ∷ []) = eqb d c
ends_with_code c (d ∷ e ∷ ds) = ends_with_code c (e ∷ ds)

-- What follows the prefix `p` of `s`; `none` if `s` does not begin with `p`.
abbrev pub after_prefix : String → String → Option String
after_prefix s String.[] = some s
after_prefix String.[] (String.◌∷◌ d p) = none
after_prefix (String.◌∷◌ c s) (String.◌∷◌ d p) =
    if eqb (code c) (code d) then after_prefix s p else none

pub after_prefix-append : (p t : String) → after_prefix (String.◌++◌ p t) p ≡ some t
after_prefix-append String.[] t = rw (append.nil t) refl
after_prefix-append (String.◌∷◌ c p) t =
    rw (append.cons c p t)
      (let same : eqb (code c) (code c) ≡ true = ground arith in rw same (after_prefix-append p t))
