-- ===== src/Ndt/Cutting.antt =====
-- Computations that depend on the bytes that arrive and not on how these are cut into events, and
-- that end: a notion that is kept by every way to compose them.
pub mod Reads
pub mod Steps
pub mod Phases
pub mod Subtests
pub mod Session
use libight.Prelude.{
  ℕ, zero, suc, ◌+◌, ◌-◌, ◌≤◌, ◌<◌, ◌≡◌, refl, sym, ap, ◌∙◌, Bool, true, false, List, [], ◌∷◌, ◌++◌,
  map, arith, Option, none, some, if◌then◌else◌, length, length-append, All,
}
use libight.Prelude.Bytes.{Bytes}
use libight.Common.Error.{Error, ErrorOr, ok, err, is_error, no_error}
use libight.Net.Transport.{Event, data_event, error_event}
use libight.Net.Transport.Cutting.{Item, byte, broken, bytes, flat, view}
use libight.Ndt.Context.{
  Context, Entry, Outcome, returns, fails, waits, faults, spins, M, bind, ◌>>=◌, ◌>>◌, pure, fail,
  fault, check, from_error_or, from_option, modify, modify_entry, map_failure, with_error, caught,
  attempt,
}
use libight.Ndt.Protocol.{arriving, available}

-- The connection reports real errors.
abbrev pub IsReal : Item → Type 0
IsReal (byte b) = Unit
IsReal (broken e) = is_error e ≡ true

abbrev pub items : Context → List Item
items c = view c.buff c.incoming

-- Two contexts that differ in how what is still to be read is cut.
pub record Same (c d : Context) : Type 0 where
  pub items_same : items c ≡ items d
  pub real : All IsReal (items c)
  pub flushes_same : c.flushes ≡ d.flushes
  pub written_same : c.written ≡ d.written
  pub flows_same : c.flows ≡ d.flows
  pub started_same : c.started ≡ d.started
  pub suite_same : c.granted_suite ≡ d.granted_suite
  pub entry_same : c.entry ≡ d.entry

-- Two outcomes that differ in no other way, where a result leaves `k` bytes fewer than `n`.
pub data Agree {A : Type 0} (k n : ℕ) : Outcome A → Outcome A → Type 0 where
  both_return :
      (a : A) {c d : Context}
      → Same c d
      → available c + k ≤ n
      → Agree k n (returns a c) (returns a d)
  both_fail :
      (e : Error) {c d : Context} → Same c d → available c ≤ n → Agree k n (fails e c) (fails e d)
  both_wait : {c d : Context} → Same c d → Agree k n (waits c) (waits d)
  both_fault : Agree k n faults faults

-- A computation that takes `k` bytes at least.
abbrev pub Takes : ℕ → {A : Type 0} → M A → Type 0
Takes k m = (c d : Context) → Same c d → Agree k (available c) (m c) (m d)

abbrev pub Steady : {A : Type 0} → M A → Type 0
Steady m = Takes 0 m

pub Agree-weaken :
    {A : Type 0} (k j n m : ℕ) {o p : Outcome A}
    → Agree k n o p
    → n + j ≤ m + k
    → n ≤ m
    → Agree j m o p
Agree-weaken k j n m (both_return a s h) l l' = both_return a s (omega arith)
Agree-weaken k j n m (both_fail e s h) l l' = both_fail e s (omega arith)
Agree-weaken k j n m (both_wait s) l l' = both_wait s
Agree-weaken k j n m both_fault l l' = both_fault

-- What follows is asked only where the first part has a result.
pub Agree-bind :
    {A B : Type 0} (k j n : ℕ) {o p : Outcome A} (f : A → M B)
    → Agree k n o p
    → ((a : A) (c d : Context)
        → Same c d
        → available c + k ≤ n
        → Agree j (available c) (f a c) (f a d))
    → Agree (k + j) n (bind o f) (bind p f)
Agree-bind k j n f (both_return a {c} {d} s h) next =
    Agree-weaken j (k + j) (available c) n (next a c d s h) (omega arith) (omega arith)
Agree-bind k j n f (both_fail e s h) next = both_fail e s h
Agree-bind k j n f (both_wait s) next = both_wait s
Agree-bind k j n f both_fault next = both_fault

pub bind-Takes :
    {A B : Type 0} (k : ℕ) (m : M A) (f : A → M B)
    → Takes k m
    → ((a : A) → Steady (f a))
    → Takes k (m >>= f)
bind-Takes k m f hm hf c d s =
    Agree-weaken (k + 0) k (available c) (available c)
      (Agree-bind k 0 (available c) f (hm c d s) (λ a c' d' s' l. hf a c' d' s')) (omega arith)
      (omega arith)

pub bind-Steady :
    {A B : Type 0} (m : M A) (f : A → M B) → Steady m → ((a : A) → Steady (f a)) → Steady (m >>= f)
bind-Steady m f hm hf = bind-Takes 0 m f hm hf

pub then-Steady : {A B : Type 0} (m : M A) (k : M B) → Steady m → Steady k → Steady (m >> k)
then-Steady m k hm hk = bind-Steady m (λ _. k) hm (λ _. hk)

pub pure-Steady : {A : Type 0} (a : A) → Steady (pure a)
pure-Steady a c d s = both_return a s (omega arith)

pub fail-Steady : {A : Type 0} (e : Error) → Steady (fail {A = A} e)
fail-Steady e c d s = both_fail e s (omega arith)

pub fault-Steady : {A : Type 0} → Steady (fault {A = A})
fault-Steady c d s = both_fault

pub if-Steady :
    {A : Type 0} (b : Bool) (m k : M A) → Steady m → Steady k → Steady (if b then m else k)
if-Steady true m k hm hk = hm
if-Steady false m k hm hk = hk

pub check-Steady : (b : Bool) (e : Error) → Steady (check b e)
check-Steady b e = if-Steady b (pure tt) (fail e) (pure-Steady tt) (fail-Steady e)

pub from_error_or-Steady :
    {A : Type 0} (f : Error → Error) (r : ErrorOr A) → Steady (from_error_or f r)
from_error_or-Steady f (ok a) = pure-Steady a
from_error_or-Steady f (err e) = fail-Steady (f e)

pub from_option-Steady :
    {A : Type 0} (o : Option A) → ((a : A) × (o ≡ some a)) → Steady (from_option o)
from_option-Steady o (a, h) = rw h (pure-Steady a)

-- A change that is the same in both and leaves alone what is to be read.
pub modify-Steady :
    (f : Context → Context)
    → ((c d : Context) → Same c d → Same (f c) (f d))
    → ((c : Context) → available (f c) ≤ available c)
    → Steady (modify f)
modify-Steady f hs hl c d s = both_return tt (hs c d s) (omega (arith, hl c))

pub modify_entry-Steady : (f : Entry → Entry) → Steady (modify_entry f)
modify_entry-Steady f c d s =
    both_return tt
      (record {
        items_same = s.items_same;
        real = s.real;
        flushes_same = s.flushes_same;
        written_same = s.written_same;
        flows_same = s.flows_same;
        started_same = s.started_same;
        suite_same = s.suite_same;
        entry_same = ap f s.entry_same;
      })
      (omega arith)

map_failure-Agree :
    {A : Type 0} (k n : ℕ) (f : Error → Error) {o p : Outcome A}
    → Agree k n o p
    → Agree k n (map_failure f o) (map_failure f p)
map_failure-Agree k n f (both_return a s h) = both_return a s h
map_failure-Agree k n f (both_fail e s h) = both_fail (f e) s h
map_failure-Agree k n f (both_wait s) = both_wait s
map_failure-Agree k n f both_fault = both_fault

pub with_error-Takes :
    {A : Type 0} (k : ℕ) (f : Error → Error) (m : M A) → Takes k m → Takes k (with_error f m)
with_error-Takes k f m h c d s = map_failure-Agree k (available c) f (h c d s)

caught-Agree : (n : ℕ) {o p : Outcome (Unit {0})} → Agree 0 n o p → Agree 0 n (caught o) (caught p)
caught-Agree n (both_return tt s h) = both_return no_error s h
caught-Agree n (both_fail e s h) = both_return e s (omega arith)
caught-Agree n (both_wait s) = both_wait s
caught-Agree n both_fault = both_fault

pub attempt-Steady : (m : M (Unit {0})) → Steady m → Steady (attempt m)
attempt-Steady m h c d s = caught-Agree (available c) (h c d s)

-- A computation that looks at a part of the context that is the same in both.
pub looking-Steady :
    {A B : Type 0} (f : A → M B) (look : Context → A)
    → ((c d : Context) → Same c d → look c ≡ look d)
    → ((a : A) → Steady (f a))
    → Steady (λ c. f (look c) c)
looking-Steady f look same h c d s = rw (same c d s) (h (look d) c d s)

byte_count : List Item → ℕ
byte_count [] = 0
byte_count (byte b ∷ is) = suc (byte_count is)
byte_count (broken e ∷ is) = byte_count is

byte_count-bytes :
    (b : Bytes) (is : List Item) → byte_count (bytes b ++ is) ≡ length b + byte_count is
unfolding byte_count
byte_count-bytes [] is = omega arith
byte_count-bytes (x ∷ b) is = omega (arith, byte_count-bytes b is)

byte_count-flat : (es : List Event) → byte_count (flat es) ≡ arriving es
unfolding byte_count flat
byte_count-flat [] = refl
byte_count-flat (data_event d ∷ es) =
    byte_count-bytes d (flat es) ∙ omega (arith, byte_count-flat es)
byte_count-flat (error_event e ∷ es) = byte_count-flat es

available-items : (c : Context) → byte_count (items c) ≡ available c
unfolding view
available-items c =
    byte_count-bytes c.buff (flat c.incoming) ∙ omega (arith, byte_count-flat c.incoming)

pub available-Same : (c d : Context) → Same c d → available c ≡ available d
available-Same c d s = sym (available-items c) ∙ (ap byte_count s.items_same ∙ available-items d)
