-- ===== src/Common/Worker/Schedule.antt =====
-- The threads of a `Worker` under any interleaving, while the limit is changed at any time and empty
-- callbacks may be submitted: no callback is lost, reordered or left without a thread, and `active`
-- counts the threads and those that an empty callback ended.
use libight.Prelude.{
  ℕ, zero, suc, ◌+◌, ◌-◌, ◌%◌, ◌≤◌, ◌<◌, ◌≡◌, ◌⊎◌, inl, inr, Bool, true, false, List, [], ◌∷◌, ◌++◌,
  Option, none, some, arith, length, ltb, if◌then◌else◌, refl,
}
use mathlib.Core.List.{append_assoc}
use libight.Common.Worker.{
  State, ushort_mod, with_parallelism, call_in_thread, fetch, fetch_from, set_parallelism,
}

-- The shared state; how many threads are about to take the lock; the jobs being run, newest first;
-- how many threads an empty callback ended; what was submitted and what was taken, in order; and the
-- largest and the smallest limit so far.
pub record System : Type 0 where
  pub shared : State
  pub fetching : ℕ
  pub running : List ℕ
  pub ended : ℕ
  pub submitted : List (Option ℕ)
  pub taken : List (Option ℕ)
  pub most : ℕ
  pub least : ℕ

pub remove_at : ℕ → List ℕ → List ℕ
remove_at i [] = []
remove_at zero (x ∷ xs) = xs
remove_at (suc i) (x ∷ xs) = x ∷ remove_at i xs

abbrev after_call : System → Option ℕ → State × Bool → System
after_call s func (w, true) = record s {
  shared = w;
  fetching = s.fetching + 1;
  submitted = s.submitted ++ func ∷ [];
}
after_call s func (w, false) = record s { shared = w; submitted = s.submitted ++ func ∷ [] }

-- A thread runs the callback that it took, or ends.
abbrev after_fetch : System → State × Option ℕ → System
after_fetch s (w, none) = record s { shared = w; fetching = s.fetching - 1 }
after_fetch s (w, some job) = record s {
  shared = w;
  fetching = s.fetching - 1;
  running = job ∷ s.running;
}

-- What is known of the callbacks that were taken, by the queue that the thread found.
abbrev noting : List (Option ℕ) → System → System
noting [] s = s
noting (none ∷ queue) s = record s { ended = s.ended + 1; taken = s.taken ++ none ∷ [] }
noting (some job ∷ queue) s = record s { taken = s.taken ++ some job ∷ [] }

abbrev larger : ℕ → ℕ → ℕ
larger a b = if ltb a b then b else a

abbrev smaller : ℕ → ℕ → ℕ
smaller a b = if ltb a b then a else b

abbrev after_set : System → State → System
after_set s w = record s {
  shared = w;
  most = larger s.most w.parallelism;
  least = smaller s.least w.parallelism;
}

-- One step of the program or of its environment.
pub data Step (s : System) : System → Type 0 where
  -- somebody submits a callback
  call : (func : Option ℕ) → Step s (after_call s func (call_in_thread s.shared func))
  -- a thread that waits for the lock gets it
  take : 0 < s.fetching → Step s (noting s.shared.queue (after_fetch s (fetch s.shared)))
  -- a thread ends its job and goes back for the next one
  finish :
      (i : ℕ)
      → i < length s.running
      → Step s (record s { fetching = s.fetching + 1; running = remove_at i s.running })
  -- somebody changes the limit
  set : (newval : ℕ) → Step s (after_set s (set_parallelism s.shared newval))

pub data Reach (s : System) : System → Type 0 where
  here : Reach s s
  next : {t u : System} → Reach s t → Step t u → Reach s u

abbrev pub start : ℕ → System
start p = record {
  shared = with_parallelism p;
  fetching = 0;
  running = [];
  ended = 0;
  submitted = [];
  taken = [];
  most = p % ushort_mod;
  least = p % ushort_mod;
}

-- What holds at every moment.
pub record Inv (s : System) : Type 0 where
  pub fits : s.most < ushort_mod
  pub limit : s.shared.parallelism ≤ s.most
  pub at_least : s.least ≤ s.shared.parallelism
  pub counts : s.shared.active ≡ s.fetching + length s.running + s.ended
  pub bounded : s.shared.active ≤ s.most
  pub in_order : s.submitted ≡ s.taken ++ s.shared.queue
  pub served :
      (s.shared.queue ≡ [])
      ⊎ ((0 < s.fetching + length s.running) ⊎ ((0 < s.ended) ⊎ (s.least ≡ 0)))

length-remove_at : (i : ℕ) (xs : List ℕ) → i < length xs → length (remove_at i xs) + 1 ≡ length xs
unfolding remove_at
length-remove_at i [] h = elim h [ ]
length-remove_at zero (x ∷ xs) h = omega arith
length-remove_at (suc i) (x ∷ xs) h = omega (arith, length-remove_at i xs)

fits_ushort : (n : ℕ) → n % ushort_mod < ushort_mod
fits_ushort n = omega arith

Inv-call :
    (s : System) (func : Option ℕ) → Inv s → Inv (after_call s func (call_in_thread s.shared func))
unfolding call_in_thread
Inv-call s func v = ground (arith, append_assoc s.taken s.shared.queue (func ∷ []))

Inv-take :
    (s : System) (queue : List (Option ℕ))
    → 0 < s.fetching
    → s.shared.queue ≡ queue
    → Inv s
    → Inv (noting queue (after_fetch s (fetch_from s.shared queue)))
unfolding fetch_from
Inv-take s [] h e v = ground arith
Inv-take s (none ∷ r) h e v = ground (arith, append_assoc s.taken (none ∷ []) r)
Inv-take s (some job ∷ r) h e v = ground (arith, append_assoc s.taken (some job ∷ []) r)

Inv-set : (s : System) (newval : ℕ) → Inv s → Inv (after_set s (set_parallelism s.shared newval))
unfolding set_parallelism
Inv-set s newval v = ground (arith, fits_ushort newval)

start-Inv : (p : ℕ) → Inv (start p)
start-Inv p = ground (arith, fits_ushort p)

Inv-finish :
    (s : System) (i : ℕ)
    → i < length s.running
    → Inv s
    → Inv (record s { fetching = s.fetching + 1; running = remove_at i s.running })
Inv-finish s i h v = record {
  fits = v.fits;
  limit = v.limit;
  at_least = v.at_least;
  counts = omega (arith, length-remove_at i s.running h, v.counts);
  bounded = v.bounded;
  in_order = v.in_order;
  served = inr (inl (omega arith));
}

Step-Inv : {s t : System} → Step s t → Inv s → Inv t
unfolding fetch
Step-Inv {s} (call func) v = Inv-call s func v
Step-Inv {s} (take h) v = Inv-take s s.shared.queue h refl v
Step-Inv {s} (finish i h) v = Inv-finish s i h v
Step-Inv {s} (set newval) v = Inv-set s newval v

pub Reach-Inv : (p : ℕ) {s : System} → Reach (start p) s → Inv s
Reach-Inv p here = start-Inv p
Reach-Inv p (next r st) = Step-Inv st (Reach-Inv p r)
