-- ===== src/Neubot/Dash/Rates.antt =====
-- Which rate is selected.
use libight.Prelude.{
  ℕ, zero, suc, ◌+◌, ◌-◌, ◌≤◌, ◌<◌, ◌≡◌, refl, ◌⊎◌, inl, inr, List, [], ◌∷◌, Option, none, some,
  arith, ltb, get_elem?, All, Bool-cases,
}
use mathlib.Core.Path.{subst}
use libight.Prelude.{some_inj}
use libight.Neubot.Dash.{dash_rates, first_not_below, one_less, select_lower_rate_index}

-- The speed is above a rate and not above the next one.
abbrev pub Between : List ℕ → ℕ → ℕ → Type 0
Between rates speed_kbit k =
    (low high : ℕ) × (get_elem? rates k ≡ some low)
    × (get_elem? rates (suc k) ≡ some high)
    × (low < speed_kbit)
    × (speed_kbit ≤ high)

-- What the loop finds behind a rate that is below the speed.
abbrev Stepped : ℕ → ℕ → List ℕ → ℕ → Option ℕ → Type 0
Stepped speed_kbit p rates i none = All (λ r. r < speed_kbit) rates
Stepped speed_kbit p rates i (some j) = (k : ℕ) × (j ≡ i + k) × Between (p ∷ rates) speed_kbit k

Stepped-cons :
    (speed_kbit p r i : ℕ) (rates : List ℕ) (o : Option ℕ)
    → r < speed_kbit
    → Stepped speed_kbit r rates (i + 1) o
    → Stepped speed_kbit p (r ∷ rates) i o
Stepped-cons speed_kbit p r i rates none h s = (h, s)
Stepped-cons speed_kbit p r i rates (some j) h (k, e, b) = (suc k, omega (arith, e), b)

first_not_below-Stepped :
    (speed_kbit p i : ℕ) (rates : List ℕ)
    → p < speed_kbit
    → Stepped speed_kbit p rates i (first_not_below speed_kbit i rates)
unfolding first_not_below
first_not_below-Stepped speed_kbit p i [] h = tt
first_not_below-Stepped speed_kbit p i (r ∷ rates) h = elim (Bool-cases (ltb r speed_kbit)) [
  | inl below ↦ rw below (
      Stepped-cons speed_kbit p r i rates _ (ground arith)
        (first_not_below-Stepped speed_kbit r (i + 1) rates (ground arith)))
  | inr above ↦ rw above (0, omega arith, (p, r, refl, refl, h, ground arith))
]

-- Reading behind the last rate, the first rate, or a rate next to the speed.
abbrev pub Selected : ℕ → Option ℕ → Type 0
Selected speed_kbit none = 50000 < speed_kbit
Selected speed_kbit (some k) = ((k ≡ 0) × (speed_kbit ≤ 100)) ⊎ Between dash_rates speed_kbit k

abbrev rates_after : List ℕ
rates_after =
    150 ∷ 200 ∷ 250 ∷ 300 ∷ 400 ∷ 500 ∷ 700 ∷ 900 ∷ 1200 ∷ 1500 ∷ 2000 ∷ 2500 ∷ 3000 ∷ 4000 ∷ 5000
    ∷ 6000 ∷ 7000 ∷ 10000 ∷ 20000 ∷ 30000 ∷ 40000 ∷ 50000 ∷ []

All-get : (P : ℕ → Type 0) (xs : List ℕ) (k y : ℕ) → All P xs → get_elem? xs k ≡ some y → P y
All-get P (x ∷ xs) zero y h e = subst P (some_inj e) h.0
All-get P (x ∷ xs) (suc k) y h e = All-get P xs k y h.1 e
All-get P [] zero y h e = absurd (cc)
All-get P [] (suc k) y h e = absurd (cc)

abbrev Found : ℕ → ℕ → List ℕ → Option ℕ → Type 0
Found speed_kbit p rates none = All (λ r. r < speed_kbit) rates
Found speed_kbit p rates (some k) = ((k ≡ 0) × (speed_kbit ≤ p)) ⊎ Between (p ∷ rates) speed_kbit k

Found-behind :
    (speed_kbit p : ℕ) (rates : List ℕ) (o : Option ℕ)
    → Stepped speed_kbit p rates 1 o
    → Found speed_kbit p rates (one_less o)
Found-behind speed_kbit p rates none h = h
Found-behind speed_kbit p rates (some j) (k, e, b) =
    let at : j - 1 ≡ k = omega (arith, e) in rw at (inr b)

first_not_below-Found :
    (speed_kbit p : ℕ) (rates : List ℕ)
    → Found speed_kbit p rates (one_less (first_not_below speed_kbit 0 (p ∷ rates)))
unfolding first_not_below
first_not_below-Found speed_kbit p rates = elim (Bool-cases (ltb p speed_kbit)) [
  | inl below ↦ rw below (
      Found-behind speed_kbit p rates _
        (first_not_below-Stepped speed_kbit p 1 rates (ground arith)))
  | inr above ↦ rw above (inl (refl, ground arith))
]

Found-Selected :
    (speed_kbit : ℕ) (o : Option ℕ) → Found speed_kbit 100 rates_after o → Selected speed_kbit o
Found-Selected speed_kbit none h = All-get (λ r. r < speed_kbit) rates_after 21 50000 h refl
Found-Selected speed_kbit (some k) h = h

-- The selected rate is the last one below the speed, or the first rate for a speed of at most 100. For
-- a speed above 50000, the last rate, the code reads behind the rates.
pub select_lower_rate_index_lem :
    (speed_kbit : ℕ) → Selected speed_kbit (select_lower_rate_index speed_kbit)
unfolding select_lower_rate_index
select_lower_rate_index_lem speed_kbit =
    Found-Selected speed_kbit _ (first_not_below-Found speed_kbit 100 rates_after)
