-- ===== src/Prelude/Decimal.antt =====
-- `std::to_string` of a number that is not negative, and the number that a run of digits stands for.
use libight.Prelude.{
  ℕ, zero, suc, ◌+◌, ◌-◌, ◌*◌, ◌/◌, ◌%◌, ◌<◌, ◌≡◌, ◌∙◌, Bool, true, ◌&&◌, [], ◌∷◌, arith, ltb, leb,
  if◌then◌else◌, All, Bool-cases, inl, inr, ap,
}
use libight.Prelude.Bytes.{Bytes}

-- One digit is taken off in each round; `n + 1` rounds are enough.
digits_onto : ℕ → ℕ → Bytes → Bytes
digits_onto zero n acc = acc
digits_onto (suc f) n acc =
    let rest = digits_onto f (n / 10) ((b'0' + n % 10) ∷ acc) in
    if ltb n 10 then (b'0' + n) ∷ acc else rest

unfoldable pub to_string : ℕ → Bytes
unfolding digits_onto
to_string n = digits_onto (n + 1) n []

-- The value of a run of digits, read on from `acc`.
unfoldable pub read_digits : ℕ → Bytes → ℕ
read_digits acc [] = acc
read_digits acc (c ∷ s) = read_digits (acc * 10 + (c - b'0')) s

unfoldable pub is_digit : ℕ → Bool
is_digit c = leb b'0' c && leb c b'9'

read_digits-onto :
    (f n : ℕ) (acc : Bytes) → n < f → read_digits 0 (digits_onto f n acc) ≡ read_digits n acc
unfolding digits_onto read_digits
read_digits-onto zero n acc h = elim h [ ]
read_digits-onto (suc f) n acc h = elim (Bool-cases (ltb n 10)) [
  | inl last ↦ rw last (ap (λ d. read_digits d acc) (omega arith))
  | inr more ↦ rw more (
      read_digits-onto f (n / 10) ((b'0' + n % 10) ∷ acc) (ground arith)
      ∙ ap (λ d. read_digits d acc) (omega arith))
]

pub read_digits-to_string : (n : ℕ) → read_digits 0 (to_string n) ≡ n
unfolding to_string read_digits
read_digits-to_string n = read_digits-onto (n + 1) n [] (omega arith)

digits_onto-is_digit :
    (f n : ℕ) (acc : Bytes)
    → All (λ c. is_digit c ≡ true) acc
    → All (λ c. is_digit c ≡ true) (digits_onto f n acc)
unfolding digits_onto is_digit
digits_onto-is_digit zero n acc h = h
digits_onto-is_digit (suc f) n acc h = elim (Bool-cases (ltb n 10)) [
  | inl last ↦ rw last (ground arith, h)
  | inr more ↦ rw more (digits_onto-is_digit f (n / 10) ((b'0' + n % 10) ∷ acc) (ground arith, h))
]

pub to_string-is_digit : (n : ℕ) → All (λ c. is_digit c ≡ true) (to_string n)
unfolding to_string
to_string-is_digit n = digits_onto-is_digit (n + 1) n [] tt
