-- ===== src/Common/Parallel/Counting.antt =====
-- Counting the continuations that have called back, and the errors among the children.
use libight.Prelude.{
  ℕ, zero, suc, ◌+◌, ◌≤◌, ◌<◌, ◌≡◌, refl, Bool, true, false, not, ◌||◌, List, [], ◌∷◌, Option, none,
  some, arith, get_elem?, set, replicate,
}
use libight.Common.Error.{Error, is_error, no_error}
use libight.Common.Parallel.{Status, idle, waiting, finished, update}

abbrev pub one : Status → ℕ
one finished = 1
one _ = 0

-- How many of the first `n` have called back.
pub count : (ℕ → Status) → ℕ → ℕ
count f zero = 0
count f (suc n) = one (f n) + count f n

pub count-update_waiting :
    (f : ℕ → Status) (i n : ℕ) → one (f i) ≡ 0 → count (update f i waiting) n ≡ count f n
unfolding count
count-update_waiting f i zero h = refl
count-update_waiting f i (suc n) h = ground (arith, count-update_waiting f i n)

count-update_above : (f : ℕ → Status) (i n : ℕ) → n ≤ i → count (update f i finished) n ≡ count f n
unfolding count
count-update_above f i zero h = refl
count-update_above f i (suc n) h = ground (arith, count-update_above f i n)

pub count-update_finished :
    (f : ℕ → Status) (i n : ℕ)
    → i < n
    → one (f i) ≡ 0
    → count (update f i finished) n ≡ count f n + 1
unfolding count
count-update_finished f i zero h o = elim h [ ]
count-update_finished f i (suc n) h o =
    ground (arith, count-update_finished f i n, count-update_above f i n)

pub count-le : (f : ℕ → Status) (n : ℕ) → count f n ≤ n
unfolding count
count-le f zero = omega arith
count-le f (suc n) = ground (arith, count-le f n)

-- Where one has not called back, not all have.
pub count-lt : (f : ℕ → Status) (i n : ℕ) → i < n → one (f i) ≡ 0 → count f n < n
unfolding count
count-lt f i zero h o = elim h [ ]
count-lt f i (suc n) h o = ground (arith, count-lt f i n, count-le f n)

pub count-idle : (n : ℕ) → count (λ i. idle) n ≡ 0
unfolding count
count-idle zero = refl
count-idle (suc n) = omega (arith, count-idle n)

-- Where not all have called back, one that has not can be named.
pub count_gap : (f : ℕ → Status) (n : ℕ) → count f n < n → (i : ℕ) × (i < n) × (one (f i) ≡ 0)
unfolding count
count_gap f zero h = absurd (omega arith)
count_gap f (suc n) h = gap (f n) refl (count_gap f n)
  where
    gap :
        (x : Status)
        → f n ≡ x
        → (count f n < n → (i : ℕ) × (i < n) × (one (f i) ≡ 0))
        → (i : ℕ) × (i < suc n) × (one (f i) ≡ 0)
    gap idle e below = (n, omega arith, ground arith)
    gap waiting e below = (n, omega arith, ground arith)
    gap finished e below = let (i, lt, z) = below (ground arith) in (i, omega arith, z)

pub any_error : List Error → Bool
any_error [] = false
any_error (e ∷ es) = is_error e || any_error es

pub any_error-replicate : (n : ℕ) → any_error (replicate n no_error) ≡ false
unfolding any_error
any_error-replicate zero = refl
any_error-replicate (suc n) = any_error-replicate n

abbrev pub is_clean : Option Error → Bool
is_clean none = false
is_clean (some e) = not (is_error e)

pub any_error-set :
    (es : List Error) (i : ℕ) (e : Error)
    → is_clean (get_elem? es i) ≡ true
    → any_error (set es i e) ≡ (is_error e || any_error es)
unfolding any_error
any_error-set [] i e h = cc
any_error-set (x ∷ es) zero e h = ground arith
any_error-set (x ∷ es) (suc i) e h = ground (arith, any_error-set es i e)

pub is_clean-replicate : (n i : ℕ) → i < n → is_clean (get_elem? (replicate n no_error) i) ≡ true
is_clean-replicate zero i h = elim h [ ]
is_clean-replicate (suc n) zero h = refl
is_clean-replicate (suc n) (suc i) h = is_clean-replicate n i (omega arith)
