-- ===== src/Factory/Command/Asked.antt =====
-- cmd/reaper/main.go: the questions of the interactive configurator always get an answer.
use saas_reaper.Base.{
  ℕ, zero, suc, ◌+◌, ◌<◌, String, ◌≡◌, refl, sym, ◌∙◌, ap, subst, inl, inr, true, Option, none,
  some, List, [], ◌∷◌, ◌==◌, length, eq_refl, ok, Bool-cases, Option-cases, arith,
}
use saas_reaper.Base.Int64.{ℤ, pos, negsuc, ◌≤ℤ◌}
use saas_reaper.Factory.Catalog.{Choice, is_listed, choice_values_for_catalog}
use saas_reaper.Factory.Command.{
  Line, line, failing, Ask, asked, ◌>>=◌, choice_at, default_index, selected, positive, ask_text,
  ask_choice, ask_number,
}

-- No read fails.
abbrev pub AreReadable : List Line → Type 0
AreReadable [] = Unit
AreReadable (line text ∷ lines) = AreReadable lines
AreReadable (failing ∷ lines) = ⊥

-- Over input that can be read, `m` gives a value as described, and leaves such input.
abbrev pub Gives : {A : Type 0} → (A → Type 0) → Ask A → Type 0
Gives {A} P m =
    (lines : List Line)
    → AreReadable lines
    → (a : A) × ((P a) × (((m lines).0 ≡ ok a) × AreReadable (m lines).1))

pub asked-Gives :
    {A B : Type 0} (P : A → Type 0) (Q : B → Type 0) (m : Ask A) (f : A → Ask B)
    → Gives P m
    → ((a : A) → P a → Gives Q (f a))
    → Gives Q (m >>= f)
unfolding ◌>>=◌
asked-Gives P Q m f g k lines r =
    let (a, (p, (e, r1))) = g lines r in
    let (b, (q, (x, r2))) = k a p (m lines).1 r1 in
    let whole : asked f (m lines) ≡ f a (m lines).1 = ap (λ o. asked f (o, (m lines).1)) e in
    (b, (q, (ap (λ z. z.0) whole ∙ x, subst (λ z. AreReadable z.1) (sym whole) r2)))

unfoldable pub IsValue : List Choice → String → Type 0
IsValue choices value = is_listed value (choice_values_for_catalog choices) ≡ true

pub choice_at-listed :
    (n : ℕ) (choices : List Choice)
    → n < length choices
    → (v : String) × ((is_listed v (choice_values_for_catalog choices) ≡ true)
        × (choice_at n choices ≡ ok v))
choice_at-listed n [] h = absurd (omega arith)
choice_at-listed zero (c ∷ choices) h = (c.value, (rw (eq_refl c.value) refl, refl))
choice_at-listed (suc n) (c ∷ choices) h =
    let (v, (l, e)) = choice_at-listed n choices (omega arith) in (v, (ground arith, e))

default_index-bound :
    (index found : ℕ) (fallback : String) (choices : List Choice)
    → found < index + length choices
    → default_index index found fallback choices < index + length choices
default_index-bound index found fallback [] h = h
default_index-bound index found fallback (c ∷ choices) h = elim (Bool-cases (c.value == fallback)) [
  | inl e ↦
      rw e (
        let x = default_index-bound (suc index) index fallback choices (omega arith) in omega arith)
  | inr e ↦
      rw e (
        let x = default_index-bound (suc index) found fallback choices (omega arith) in omega arith)
]

selected-bound :
    (choices : List Choice) (o : Option ℤ) (n : ℕ)
    → selected choices o ≡ some n
    → n < length choices
selected-bound choices none n h = cc
selected-bound choices (some (negsuc k)) n h = cc
selected-bound choices (some (pos k)) n h = ground arith

module _ (trim : String → String) (atoi : String → Option ℤ) where
  -- A choice among those shown, whatever is entered.
  module _ (choices : List Choice) (fallback : String) (some_choice : 0 < length choices) where
    default-Gives :
        (v : String) × ((IsValue choices v)
          × (choice_at (default_index 0 0 fallback choices) choices ≡ ok v))
    unfolding IsValue
    default-Gives =
        choice_at-listed (default_index 0 0 fallback choices) choices
          (let x = default_index-bound 0 0 fallback choices (omega arith) in omega arith)

    pub ask_choice-Gives : Gives (IsValue choices) (ask_choice trim atoi choices fallback)
    unfolding ask_choice IsValue
    ask_choice-Gives [] r = let (v, (l, e)) = default-Gives in (v, (l, (e, tt)))
    ask_choice-Gives (failing ∷ lines) r = absurd r
    ask_choice-Gives (line text ∷ lines) r = elim (Bool-cases (trim text == "")) [
      | inl e ↦ let (v, (l, x)) = default-Gives in rw e (v, (l, (x, r)))
      | inr e ↦ elim (Option-cases (selected choices (atoi (trim text)))) [
        | inl z ↦ rw (e, z) (ask_choice-Gives lines r)
        | inr (n, z) ↦
            let (v, (l, x)) =
              choice_at-listed n choices (selected-bound choices (atoi (trim text)) n z) in
            rw (e, z) (v, (l, (x, r)))
      ]
    ]

  pub ask_text-Gives : (fallback : String) → Gives (λ s. Unit) (ask_text trim atoi fallback)
  unfolding ask_text
  ask_text-Gives fallback [] r = (fallback, (tt, (refl, tt)))
  ask_text-Gives fallback (failing ∷ lines) r = absurd r
  ask_text-Gives fallback (line text ∷ lines) r = (_, (tt, (refl, r)))

  positive-Gives : (o : Option ℤ) (n : ℤ) → positive o ≡ some n → pos 1 ≤ℤ n
  positive-Gives none n h = cc
  positive-Gives (some (negsuc k)) n h = cc
  positive-Gives (some (pos k)) n h = ground arith

  pub ask_number-Gives :
      (fallback : ℤ) → pos 1 ≤ℤ fallback → Gives (λ n. pos 1 ≤ℤ n) (ask_number trim atoi fallback)
  unfolding ask_number
  ask_number-Gives fallback p [] r = (fallback, (p, (refl, tt)))
  ask_number-Gives fallback p (failing ∷ lines) r = absurd r
  ask_number-Gives fallback p (line text ∷ lines) r = elim (Bool-cases (trim text == "")) [
    | inl e ↦ rw e (fallback, (p, (refl, r)))
    | inr e ↦ elim (Option-cases (positive (atoi (trim text)))) [
      | inl z ↦ rw (e, z) (ask_number-Gives fallback p lines r)
      | inr (n, z) ↦ rw (e, z) (n, (positive-Gives (atoi (trim text)) n z, (refl, r)))
    ]
  ]
