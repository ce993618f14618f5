-- ===== src/Common/Error.antt =====
-- `Error` and `ErrorOr` of common/error.hpp and common/error_or.hpp.
-- The codes are the numbers that `MK_DEFINE_ERR` gives, none of them negative.
use libight.Prelude.{ℕ, ◌+◌, Bool, not, ◌&&◌, [], ◌++◌, ◌==◌, if◌then◌else◌}
use libight.Prelude.Bytes.{Bytes, codes, beq}
use libight.Prelude.Decimal.{to_string}

-- `child_errors` is a vector of errors.
mutual
  pub data Error : Type 0 where
    error : ℕ → Bytes → Errors → Error

  pub data Errors : Type 0 where
    nil : Errors
    cons : Error → Errors → Errors

abbrev pub code : Error → ℕ
code (error c r cs) = c

abbrev pub reason : Error → Bytes
reason (error c r cs) = r

abbrev pub children : Error → Errors
children (error c r cs) = cs

-- `Error(int, std::string)`
pub make_error : ℕ → Bytes → Error
make_error c r =
    if not (c == 0) && beq r []
    then error c (codes "unknown_failure " ++ to_string c) nil
    else error c r nil

-- The three constructors of a class that `MK_DEFINE_ERR` defines.
abbrev pub plain : ℕ → Bytes → Error
plain c r = error c r nil

abbrev pub with_text : ℕ → Bytes → Bytes → Error
with_text c r s = error c (r ++ codes ": " ++ s) nil

abbrev pub with_child : ℕ → Bytes → Error → Error
with_child c r e = error c r (cons e nil)

-- `operator bool`
abbrev pub is_error : Error → Bool
is_error e = not (code e == 0)

-- `operator==`
abbrev pub same_code : Error → Error → Bool
same_code e f = code e == code f

abbrev pub append_child : Errors → Error → Errors
append_child nil e = cons e nil
append_child (cons f fs) e = cons f (append_child fs e)

abbrev pub add_child_error : Error → Error → Error
add_child_error (error c r cs) e = error c r (append_child cs e)

-- `{NoError(), a}` is `ok a`, and `{e, {}}` is `err e` for an error with a code that is not 0.
pub data ErrorOr {ℓ} (A : Type ℓ) : Type ℓ where
  ok : A → ErrorOr A
  err : Error → ErrorOr A

infixl 5 ◌>>=◌
abbrev pub ◌>>=◌ {ℓ κ} : {A : Type ℓ} {B : Type κ} → ErrorOr A → (A → ErrorOr B) → ErrorOr B
ok a >>= f = f a
err e >>= f = err e

-- Errors of common/error.hpp.
abbrev pub no_error : Error
no_error = plain 0 []

abbrev pub generic_error : Error
generic_error = plain 1 (codes "generic_error")

abbrev pub not_initialized_error : Error
not_initialized_error = plain 2 (codes "not_initialized")

abbrev pub value_error : Error
value_error = plain 3 (codes "value_error")

abbrev pub file_io_error : Error
file_io_error = plain 9 (codes "file_io_error")

abbrev pub file_eof_error : Error
file_eof_error = plain 8 (codes "file_eof_error")

abbrev pub parallel_operation_error : Error
parallel_operation_error = plain 10 (codes "parallel_operation_error")

abbrev pub timeout_error : Error
timeout_error = plain 16 (codes "generic_timeout_error")

abbrev pub json_processing_error : Error
json_processing_error = plain 17 (codes "json_processing_error")

-- `MK_ERR_NET` and its like.
abbrev pub err_net : ℕ → ℕ
err_net x = 1000 + x

abbrev pub err_http : ℕ → ℕ
err_http x = 3000 + x

abbrev pub err_mlabns : ℕ → ℕ
err_mlabns x = 5000 + x

abbrev pub err_report : ℕ → ℕ
err_report x = 7000 + x

abbrev pub err_ndt : ℕ → ℕ
err_ndt x = 8000 + x
