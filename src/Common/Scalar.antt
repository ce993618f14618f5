-- ===== src/Common/Scalar.antt =====
-- `Scalar` of common/scalar.hpp and `lexical_cast_noexcept` of common/lexical_cast.hpp, from text to
-- the integer types: `std::stringstream` skips spaces, reads a sign and digits, and must end there.
use libight.Prelude.{
  ℕ, ◌-◌, Bool, true, false, not, ◌&&◌, ◌||◌, [], ◌∷◌, leb, ltb, ◌==◌, if◌then◌else◌,
}
use libight.Prelude.Bytes.{Bytes, codes, beq}
use libight.Prelude.Decimal.{is_digit, read_digits}
use libight.Prelude.Int.{ℤ, pos, negsuc}
use libight.Common.Error.{ErrorOr, ok, err, with_text, ◌>>=◌}

-- `ss{c_str()}`: the text up to a zero byte.
unfoldable pub c_str : Bytes → Bytes
c_str [] = []
c_str (c ∷ s) = if c == 0 then [] else c ∷ c_str s

unfoldable pub is_space : ℕ → Bool
is_space c = c == 32 || leb 9 c && leb c 13

unfoldable pub skip_spaces : Bytes → Bytes
skip_spaces [] = []
skip_spaces (c ∷ s) = let rest = skip_spaces s in if is_space c then rest else c ∷ s

-- Whether there is a minus, and what follows the sign.
unfoldable pub sign : Bytes → Bool × Bytes
sign [] = (false, [])
sign (c ∷ s) = if c == b'-' then (true, s) else if c == b'+' then (false, s) else (false, c ∷ s)

unfoldable pub leading_digits : Bytes → Bytes × Bytes
leading_digits [] = ([], [])
leading_digits (c ∷ s) =
    let (ds, rest) = leading_digits s in if is_digit c then (c ∷ ds, rest) else ([], c ∷ s)

-- The magnitude, which may be `limit` at most, and whether there is a minus.
unfoldable pub extract : (Bool → ℕ) → Bool × Bytes × Bytes → ErrorOr (Bool × ℕ)
unfolding beq read_digits
extract limit (minus, ds, rest) =
    if not (beq rest [])
    then err (with_text 3 (codes "value_error") (codes "not_all_input_was_converted"))
    else if beq ds [] || ltb (limit minus) (read_digits 0 ds)
    then err (with_text 3 (codes "value_error") (codes "wrong_input_format"))
    else ok (minus, read_digits 0 ds)

unfoldable pub number_parts : Bytes → Bool × Bytes × Bytes
unfolding c_str is_space skip_spaces sign leading_digits is_digit
number_parts s =
    let (minus, t) = sign (skip_spaces (c_str s)) in
    let (ds, rest) = leading_digits t in (minus, ds, rest)

-- A minus wraps around.
abbrev pub as_unsigned : Bool × ℕ → ℕ
as_unsigned (false, n) = n
as_unsigned (true, n) = if n == 0 then 0 else 4294967296 - n

abbrev pub negated : ℕ → ℤ
negated n = if n == 0 then pos 0 else negsuc (n - 1)

abbrev pub as_signed : Bool × ℕ → ℤ
as_signed (false, n) = pos n
as_signed (true, n) = negated n

abbrev pub signed_limit : ℕ → Bool → ℕ
signed_limit half false = half - 1
signed_limit half true = half

unfoldable pub lexical_cast_unsigned : Bytes → ErrorOr ℕ
unfolding extract number_parts
lexical_cast_unsigned s = extract (λ _. 4294967295) (number_parts s) >>= λ p. ok (as_unsigned p)

-- `int`
unfoldable pub lexical_cast_int : Bytes → ErrorOr ℤ
unfolding extract number_parts
lexical_cast_int s = extract (signed_limit 2147483648) (number_parts s) >>= λ p. ok (as_signed p)

-- `long`, of 64 bits.
unfoldable pub lexical_cast_long : Bytes → ErrorOr ℤ
unfolding extract number_parts
lexical_cast_long s =
    extract (signed_limit 9223372036854775808) (number_parts s) >>= λ p. ok (as_signed p)
