-- ===== src/Ndt/Messages.antt =====
-- ndt/messages_impl.hpp and ndt/messages.cpp.
use libight.Prelude.{
  ℕ, ◌%◌, ◌∷◌, List, [], ◌++◌, Bool, true, false, Option, none, some, ltb, ◌==◌, if◌then◌else◌,
  length,
}
use libight.Prelude.Bytes.{Bytes, codes, beq}
use libight.Prelude.Decimal.{to_string}
use libight.Prelude.Int.{ℤ}
use libight.Common.Error.{Error, ErrorOr, ok, err, is_error, json_processing_error}
use libight.Common.Scalar.{lexical_cast_long}
use libight.Common.Text.Split.{split}
use libight.Net.Transport.{Reading, readn}
use libight.Net.Buffer.Contents.{read_uint_contents, readn_contents, uint16}
use libight.Ndt.Errors.{
  reading_message_type_length_error, reading_message_payload_error, message_too_long_error,
}
use libight.Ndt.Context.{
  Context, Value, long, double, string, Outcome, returns, fails, waits, faults, M, ◌>>=◌, ◌>>◌,
  pure, fail, fault, from_option, modify, with_error,
}

-- What the code uses of the vendored JSON library, and of the conversion to a double.
pub record Json : Type 0 where
  -- `nlohmann::json{{"msg", s}}.dump()`, which throws at text that is no UTF-8
  pub dump_msg : Bytes → Option Bytes
  -- the same of the login message, for the version and the tests
  pub dump_login : Bytes → Bytes → Option Bytes
  -- whether `parse` accepts a text
  pub is_json : Bytes → Bool
  -- the string under "msg" of the document of a text
  pub msg_of : Bytes → Option Bytes
  -- whether `lexical_cast_noexcept<double>` converts a text, and the order of the result and an
  -- integer
  pub is_double : Bytes → Bool
  pub is_below : Bytes → ℕ → Bool
  pub is_above : Bytes → ℕ → Bool

-- The message types of ndt/internal.hpp.
abbrev pub srv_queue : ℕ
srv_queue = 1

abbrev pub msg_login : ℕ
msg_login = 2

abbrev pub test_prepare : ℕ
test_prepare = 3

abbrev pub test_start : ℕ
test_start = 4

abbrev pub test_msg : ℕ
test_msg = 5

abbrev pub test_finalize : ℕ
test_finalize = 6

abbrev pub msg_results : ℕ
msg_results = 8

abbrev pub msg_logout : ℕ
msg_logout = 9

abbrev pub msg_waiting : ℕ
msg_waiting = 10

abbrev pub msg_extended_login : ℕ
msg_extended_login = 11

unfoldable pub received : Context → Reading → Outcome (Unit {0})
received c (Reading.calls e buff es) =
    if is_error e
    then fails e (record c { buff = buff; incoming = es })
    else returns tt (record c { buff = buff; incoming = es })
received c (Reading.waits buff) = waits (record c { buff = buff; incoming = [] })

-- `net::readn(ctx->txp, ctx->buff, n, ...)`
unfoldable pub await_bytes : ℕ → M (Unit {0})
unfolding received
await_bytes n c = received c (readn n c.buff c.incoming)

uint_taken : Context → ErrorOr ℕ × Bytes → Outcome ℕ
uint_taken c (ok n, rest) = returns n (record c { buff = rest })
uint_taken c (err e, rest) = faults

-- An integer off the buffer, which throws when it is not there.
unfoldable pub take_uint : ℕ → M ℕ
unfolding uint_taken
take_uint width c = uint_taken c (read_uint_contents width c.buff)

bytes_taken : Context → ℕ → Bytes × Bytes → Outcome Bytes
bytes_taken c n (s, rest) = if length s == n then returns s (record c { buff = rest }) else faults

-- `readn` of the buffer, with the assertion that it gives all bytes.
unfoldable pub take_bytes : ℕ → M Bytes
unfolding bytes_taken
take_bytes n c = bytes_taken c n (readn_contents c.buff n)

unfoldable pub read_ll : M (ℕ × Bytes)
read_ll = do
  with_error reading_message_type_length_error (await_bytes 3)
  type ← take_uint 1
  length ← take_uint 2
  with_error reading_message_payload_error (await_bytes length)
  s ← take_bytes length
  pure (type, s)

unfoldable pub parsed : Bool → ℕ × Bytes → M (ℕ × Bytes)
parsed true m = pure m
parsed false m = fail json_processing_error

unfoldable pub text_of : ℕ → Option Bytes → M (ℕ × Bytes)
text_of type none = fail json_processing_error
text_of type (some s) = pure (type, s)

module _ (j : Json) where
  -- The text of the document is passed on in place of the document.
  unfoldable pub read_json : M (ℕ × Bytes)
  unfolding parsed
  read_json = do m ← read_ll; parsed (j.is_json m.1) m

  unfoldable pub read_msg : M (ℕ × Bytes)
  unfolding text_of
  read_msg = do m ← read_json; text_of m.0 (j.msg_of m.1)

-- `format_any`, on the text of the document.
unfoldable pub format_any : ℕ → Bytes → ErrorOr Bytes
format_any type s =
    if ltb 65535 (length s)
    then err message_too_long_error
    else ok (type ∷ (uint16 (length s) ++ s))

unfoldable pub formatted : ℕ → Option Bytes → M (ErrorOr Bytes)
formatted type none = fault
formatted type (some s) = pure (format_any type s)

module _ (j : Json) where
  unfoldable pub format_msg_extended_login : ℕ → M (ErrorOr Bytes)
  unfolding formatted
  format_msg_extended_login tests =
      formatted msg_extended_login (j.dump_login (codes "v3.7.0") (to_string (tests % 256)))

  unfoldable pub format_test_msg : Bytes → M (ErrorOr Bytes)
  unfolding formatted
  format_test_msg s = formatted test_msg (j.dump_msg s)

  unfoldable pub format_msg_waiting : M (ErrorOr Bytes)
  unfolding formatted
  format_msg_waiting = formatted msg_waiting (j.dump_msg [])

unfoldable pub write_noasync : Bytes → M (Unit {0})
write_noasync s = modify (λ c. record c { written = c.written ++ s })

unfoldable pub flushed : Context → List Error → Outcome (Unit {0})
flushed c [] = waits c
flushed c (e ∷ es) =
    if is_error e
    then fails e (record c { flushes = es })
    else returns tt (record c { flushes = es })

-- `net::write`, whose callback is called when the output was sent or an error occurs.
unfoldable pub await_flush : M (Unit {0})
unfolding flushed
await_flush c = flushed c c.flushes

unfoldable pub write : Bytes → M (Unit {0})
unfolding await_flush
write s = do write_noasync s; await_flush

unfoldable pub put : Bytes → Value → List (Bytes × Value) → List (Bytes × Value)
put k v [] = (k, v) ∷ []
put k v ((i, w) ∷ m) = if beq i k then (k, v) ∷ m else (i, w) ∷ put k v m

value_unless_long : Json → Bytes → ErrorOr ℤ → Value
value_unless_long j s (ok n) = long n
value_unless_long j s (err e) = if j.is_double s then double s else string s

unfoldable pub value_of : Json → Bytes → Value
unfolding value_unless_long
value_of j s = value_unless_long j s (lexical_cast_long s)

-- On the pieces of the item; anything but two of them is an error, which the callers ignore.
reported : Json → List (Bytes × Value) → List Bytes → List (Bytes × Value)
reported j m (variable ∷ value ∷ []) = put variable (value_of j value) m
reported j m _ = m

unfoldable pub add_to_report : Json → List (Bytes × Value) → Bytes → M (List (Bytes × Value))
unfolding reported
add_to_report j m item = do list ← from_option (split item (codes ":")); pure (reported j m list)

unfoldable pub report_all : Json → List (Bytes × Value) → List Bytes → M (List (Bytes × Value))
report_all j m [] = pure m
report_all j m (x ∷ xs) = do m' ← add_to_report j m x; report_all j m' xs

-- The loop over the lines; `split` gives no empty ones.
unfoldable pub report_lines : Json → List (Bytes × Value) → Bytes → M (List (Bytes × Value))
unfolding report_all
report_lines j m s = do lines ← from_option (split s (10 ∷ [])); report_all j m lines
