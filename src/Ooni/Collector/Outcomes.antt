-- ===== src/Ooni/Collector/Outcomes.antt =====
-- What holds of an outcome of the client of the collector, and that it is kept by its combinators.
use libight.Prelude.{
  ℕ, ◌+◌, ◌≡◌, refl, sym, ap, ◌∙◌, Bool, true, false, List, [], ◌++◌, Option, none, some, arith,
  if◌then◌else◌, inl, inr, Bool-cases,
}
use mathlib.Core.List.{append_assoc, append-nil}
use libight.Common.Error.{Error, is_error}
use libight.Ooni.Collector.{
  Request, State, Outcome, returns, fails, waits, faults, M, bind, fail_if, or_fail, or_fault,
  close_failed,
}

-- What is sent, connected and closed between two states.
pub record Sent (s : State) (rs : List Request) (k l : ℕ) (t : State) : Type 0 where
  pub requested : t.requests ≡ s.requests ++ rs
  pub connected : t.connections ≡ s.connections + k
  pub ended : t.closed ≡ s.closed + l

-- The same without what is sent.
pub record Balance (s : State) (k l : ℕ) (t : State) : Type 0 where
  pub made : t.connections ≡ s.connections + k
  pub undone : t.closed ≡ s.closed + l

-- What holds of a value, of an error and of waiting.
pub data Sat {A : Type 0} (P : A → State → Type 0) (E : Error → State → Type 0) (W : State → Type 0)
    : Outcome A → Type 0 where
  returned : {a : A} {t : State} → P a t → Sat P E W (returns a t)
  failed : {e : Error} {t : State} → E e t → Sat P E W (fails e t)
  waiting : {t : State} → W t → Sat P E W (waits t)
  faulty : Sat P E W faults

-- An error is real, and some connections were made and closed.
abbrev pub Failed : State → ℕ → ℕ → Error → State → Type 0
Failed s k l e t = (is_error e ≡ true) × Balance s k l t

pub Sat-bind :
    {A B : Type 0} {o : Outcome A} {f : A → M B} {P : A → State → Type 0} {Q : B → State → Type 0}
    {E E' : Error → State → Type 0} {W W' : State → Type 0}
    → Sat P E W o
    → ((a : A) (t : State) → P a t → Sat Q E' W' (f a t))
    → ((e : Error) (t : State) → E e t → E' e t)
    → ((t : State) → W t → W' t)
    → Sat Q E' W' (bind o f)
Sat-bind (returned {a} {t} p) k e w = k a t p
Sat-bind (failed {e = x} {t} p) k e w = failed (e x t p)
Sat-bind (waiting {t} p) k e w = waiting (w t p)
Sat-bind faulty k e w = faulty

pub Sat-weaken :
    {A : Type 0} {o : Outcome A} {P Q : A → State → Type 0} {E E' : Error → State → Type 0}
    {W W' : State → Type 0}
    → Sat P E W o
    → ((a : A) (t : State) → P a t → Q a t)
    → ((e : Error) (t : State) → E e t → E' e t)
    → ((t : State) → W t → W' t)
    → Sat Q E' W' o
Sat-weaken (returned {a} {t} p) k e w = returned (k a t p)
Sat-weaken (failed {e = x} {t} p) k e w = failed (e x t p)
Sat-weaken (waiting {t} p) k e w = waiting (w t p)
Sat-weaken faulty k e w = faulty

-- A transport that is closed when an error is passed on.
pub close_failed-Sat :
    {A : Type 0} (s : State) (k : ℕ) {o : Outcome A} {P : A → State → Type 0} {W : State → Type 0}
    → Sat P (Failed s k 0) W o
    → Sat P (Failed s k 1) W (close_failed o)
close_failed-Sat s k (returned p) = returned p
close_failed-Sat s k (failed p) =
    failed (p.0, record { made = p.1.made; undone = omega (arith, p.1.undone) })
close_failed-Sat s k (waiting p) = waiting p
close_failed-Sat s k faulty = faulty

pub Balance-here : (s : State) → Balance s 0 0 s
Balance-here s = record { made = omega arith; undone = omega arith }

pub Failed-here : (s : State) (e : Error) → is_error e ≡ true → Failed s 0 0 e s
Failed-here s e h = (h, Balance-here s)

-- The steps that change no state.
module _ {A : Type 0} {P : A → State → Type 0} {E : Error → State → Type 0} {W : State → Type 0}
    (s : State) where
  pub fail_if-bind :
      (e : Error) (f : Unit {0} → M A)
      → (is_error e ≡ true → E e s)
      → (is_error e ≡ false → Sat P E W (f tt s))
      → Sat P E W (bind (fail_if e s) f)
  fail_if-bind e f k g = elim (Bool-cases (is_error e)) [
    | inl real ↦ rw real (failed (k real))
    | inr fine ↦ rw fine (g fine)
  ]

  pub if-Sat :
      (b : Bool) (m k : M A)
      → (b ≡ true → Sat P E W (m s))
      → (b ≡ false → Sat P E W (k s))
      → Sat P E W ((if b then m else k) s)
  if-Sat true m k g h = g refl
  if-Sat false m k g h = h refl

  pub or_fault-bind :
      {B : Type 0} (o : Option B) (f : B → M A)
      → ((b : B) → o ≡ some b → Sat P E W (f b s))
      → Sat P E W (bind (or_fault o s) f)
  or_fault-bind none f g = faulty
  or_fault-bind (some b) f g = g b refl

  pub or_fail-Sat :
      (e : Error) (o : Option A)
      → E e s
      → ((a : A) → o ≡ some a → P a s)
      → Sat P E W (or_fail e o s)
  or_fail-Sat e none k g = failed k
  or_fail-Sat e (some a) k g = returned (g a refl)

  pub or_fail-bind :
      {B : Type 0} (e : Error) (o : Option B) (f : B → M A)
      → E e s
      → ((b : B) → o ≡ some b → Sat P E W (f b s))
      → Sat P E W (bind (or_fail e o s) f)
  or_fail-bind e none f k g = failed k
  or_fail-bind e (some b) f k g = g b refl

pub Sent-nothing : (s : State) → Sent s [] 0 0 s
Sent-nothing s = record {
  requested = sym (append-nil s.requests);
  connected = omega arith;
  ended = omega arith;
}

pub Sent-append :
    (s t u : State) {rs qs : List Request} {k l m n : ℕ}
    → Sent s rs k l t
    → Sent t qs m n u
    → Sent s (rs ++ qs) (k + m) (l + n) u
Sent-append s t u {rs} {qs} a b = record {
  requested = b.requested ∙ (ap (λ r. r ++ qs) a.requested ∙ append_assoc s.requests rs qs);
  connected = omega (arith, a.connected, b.connected);
  ended = omega (arith, a.ended, b.ended);
}

-- What is added to what was connected and closed before.
pub Balance-after :
    {s t : State} (u : State) {rs : List Request} {k l m n : ℕ}
    → Sent s rs k l t
    → Balance t m n u
    → Balance s (k + m) (l + n) u
Balance-after u a b = record {
  made = omega (arith, a.connected, b.made);
  undone = omega (arith, a.ended, b.undone);
}

pub Failed-after :
    {s t : State} (u : State) {rs : List Request} {k l m n : ℕ} (e : Error)
    → Sent s rs k l t
    → Failed t m n e u
    → Failed s (k + m) (l + n) e u
Failed-after u e a b = (b.0, Balance-after u a b.1)
