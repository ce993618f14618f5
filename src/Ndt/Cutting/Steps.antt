-- ===== src/Ndt/Cutting/Steps.antt =====
-- Writes, reports and loops depend on the bytes that arrive only, and end.
use libight.Prelude.{
  ℕ, suc, ◌+◌, ◌<◌, ◌≡◌, refl, ap, Bool, true, false, List, [], ◌∷◌, ◌++◌, arith, Option, none,
  some, if◌then◌else◌,
}
use libight.Prelude.Bytes.{Bytes, codes}
use libight.Common.Error.{Error, is_error}
use libight.Common.Text.Split.{split, split_total}
use libight.Ndt.Context.{Context, Value, returns, fails, M, ◌>>=◌, ◌>>◌, from_option, modify}
use libight.Ndt.Messages.{
  Json, formatted, format_any, format_test_msg, write_noasync, flushed, await_flush, write,
  add_to_report, report_all, report_lines,
}
use libight.Ndt.Protocol.{available}
use libight.Ndt.Cutting.{
  Same, Agree, both_return, both_fail, both_wait, Takes, Steady, Agree-weaken, Agree-bind,
  bind-Steady, then-Steady, pure-Steady, fault-Steady, from_option-Steady, modify-Steady,
  available-Same,
}

-- A round that takes a message, and then another with less fuel.
pub round-Agree :
    {A B : Type 0} (fuel : ℕ) (m : M A) (f : A → M B)
    → Takes 3 m
    → ((a : A) (c d : Context)
        → Same c d
        → available c < fuel
        → Agree 0 (available c) (f a c) (f a d))
    → (c d : Context) → Same c d
    → available c < suc fuel
    → Agree 0 (available c) ((m >>= f) c) ((m >>= f) d)
round-Agree fuel m f hm hf c d s h =
    Agree-weaken 3 0 (available c) (available c)
      (Agree-bind 3 0 (available c) f (hm c d s) (λ a c' d' s' l. hf a c' d' s' (omega arith)))
      (omega arith) (omega arith)

-- A loop with more fuel than there are bytes.
abbrev pub Ends : ℕ → {A : Type 0} → M A → Type 0
Ends fuel m = (c d : Context) → Same c d → available c < fuel → Agree 0 (available c) (m c) (m d)

pub Steady-Ends : {A : Type 0} (fuel : ℕ) (m : M A) → Steady m → Ends fuel m
Steady-Ends fuel m h c d s l = h c d s

pub if-Ends :
    {A : Type 0} (fuel : ℕ) (b : Bool) (m k : M A)
    → Ends fuel m
    → Ends fuel k
    → Ends fuel (if b then m else k)
if-Ends fuel true m k hm hk = hm
if-Ends fuel false m k hm hk = hk

pub bind-Ends :
    {A B : Type 0} (fuel : ℕ) (m : M A) (f : A → M B)
    → Steady m
    → ((a : A) → Ends fuel (f a))
    → Ends fuel (m >>= f)
bind-Ends fuel m f hm hf c d s h =
    Agree-bind 0 0 (available c) f (hm c d s) (λ a c' d' s' l. hf a c' d' s' (omega arith))

pub then-Ends :
    {A B : Type 0} (fuel : ℕ) (m : M A) (k : M B) → Steady m → Ends fuel k → Ends fuel (m >> k)
then-Ends fuel m k hm hk = bind-Ends fuel m (λ _. k) hm (λ _. hk)

-- A loop that is started with one more than the bytes that can be read.
pub fueled-Steady :
    {A : Type 0} (loop : ℕ → M A)
    → ((fuel : ℕ) → Ends fuel (loop fuel))
    → Steady (λ c. loop (available c + 1) c)
fueled-Steady loop h c d s = rw (← available-Same c d s) (h (available c + 1) c d s (omega arith))

pub suite-Steady : (suite : List Bytes) → Steady (modify (λ c. record c { granted_suite = suite }))
suite-Steady suite =
    modify-Steady _
      (λ c d s. record {
        items_same = s.items_same;
        real = s.real;
        flushes_same = s.flushes_same;
        written_same = s.written_same;
        flows_same = s.flows_same;
        started_same = s.started_same;
        suite_same = refl;
        entry_same = s.entry_same;
      })
      (λ c. omega arith)

pub split-Steady : (s p : Bytes) → Steady (from_option (split s p))
split-Steady s p = from_option-Steady (split s p) (split_total s p)

pub formatted-Steady : (type : ℕ) (o : Option Bytes) → Steady (formatted type o)
unfolding formatted
formatted-Steady type none = fault-Steady
formatted-Steady type (some s) = pure-Steady (format_any type s)

pub write_noasync-Steady : (b : Bytes) → Steady (write_noasync b)
unfolding write_noasync
write_noasync-Steady b =
    modify-Steady _
      (λ c d s. record {
        items_same = s.items_same;
        real = s.real;
        flushes_same = s.flushes_same;
        written_same = ap (λ w. w ++ b) s.written_same;
        flows_same = s.flows_same;
        started_same = s.started_same;
        suite_same = s.suite_same;
        entry_same = s.entry_same;
      })
      (λ c. omega arith)

flushes-Same :
    (c d : Context) (es : List Error)
    → Same c d
    → Same (record c { flushes = es }) (record d { flushes = es })
flushes-Same c d es s = record {
  items_same = s.items_same;
  real = s.real;
  flushes_same = refl;
  written_same = s.written_same;
  flows_same = s.flows_same;
  started_same = s.started_same;
  suite_same = s.suite_same;
  entry_same = s.entry_same;
}

flushed-Agree :
    (c d : Context) (es : List Error)
    → Same c d
    → Agree 0 (available c) (flushed c es) (flushed d es)
unfolding flushed
flushed-Agree c d [] s = both_wait s
flushed-Agree c d (e ∷ es) s = either (is_error e) e (flushes-Same c d es s)
  where
    either :
        (b : Bool) (x : Error) {c' d' : Context}
        → Same c' d'
        → Agree 0
            (available c')
            (if b then fails x c' else returns tt c')
            (if b then fails x d' else returns tt d')
    either true x s' = both_fail x s' (omega arith)
    either false x s' = both_return tt s' (omega arith)

flushed-Agree_eq :
    (c d : Context) (es es' : List Error)
    → es ≡ es'
    → Same c d
    → Agree 0 (available c) (flushed c es) (flushed d es')
flushed-Agree_eq c d es es' e s = rw e (flushed-Agree c d es' s)

await_flush-Steady : Steady await_flush
unfolding await_flush
await_flush-Steady c d s = flushed-Agree_eq c d c.flushes d.flushes s.flushes_same s

pub write-Steady : (b : Bytes) → Steady (write b)
unfolding write
write-Steady b =
    then-Steady (write_noasync b) await_flush (write_noasync-Steady b) await_flush-Steady

pub format_test_msg-Steady : (j : Json) (s : Bytes) → Steady (format_test_msg j s)
unfolding format_test_msg
format_test_msg-Steady j s = formatted-Steady _ (j.dump_msg s)

report_all-Steady :
    (j : Json) (m : List (Bytes × Value)) (xs : List Bytes) → Steady (report_all j m xs)
unfolding report_all add_to_report
report_all-Steady j m [] = pure-Steady m
report_all-Steady j m (x ∷ xs) =
    bind-Steady _ _ (bind-Steady _ _ (split-Steady x (codes ":")) (λ list. pure-Steady _))
      (λ m'. report_all-Steady j m' xs)

pub report_lines-Steady :
    (j : Json) (m : List (Bytes × Value)) (s : Bytes) → Steady (report_lines j m s)
unfolding report_lines
report_lines-Steady j m s =
    bind-Steady _ _ (split-Steady s (10 ∷ [])) (λ lines. report_all-Steady j m lines)
