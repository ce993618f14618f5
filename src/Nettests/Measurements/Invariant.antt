-- ===== src/Nettests/Measurements/Invariant.antt =====
-- What holds of the runs at every moment.
use libight.Prelude.{
  ℕ, ◌+◌, ◌<◌, ◌≡◌, refl, sym, ◌∙◌, ◌⊎◌, inl, inr, Bool, true, false, not, ◌&&◌, ◌||◌, List, [],
  ◌∷◌, ◌++◌, some, arith, ◌==◌, length, length-append, get_elem?, Bool-cases,
}
use libight.Prelude.Bytes.{Bytes}
use mathlib.Core.List.{append_assoc}
use libight.Common.Error.{Error, is_error, no_error}
use libight.Nettests.Measurements.{
  Settings, Event, Run, ready, measuring, writing, ended, State, update, start, take_input,
  run_next_measurement, on_test_keys, on_written, Step, next_measurement, test_keys, written,
}

-- Whether an entry with this index was given to the report.
unfoldable pub is_submitted : ℕ → List (ℕ × Bytes) → Bool
is_submitted idx [] = false
is_submitted idx ((j, x) ∷ l) = j == idx || is_submitted idx l

-- No index twice.
abbrev pub IsOnce : List (ℕ × Bytes) → Type 0
IsOnce [] = Unit
IsOnce ((j, x) ∷ l) = (is_submitted j l ≡ false) × IsOnce l

-- Each entry has the input that was taken with its index.
abbrev pub IsOwn : List Bytes → List (ℕ × Bytes) → Type 0
IsOwn inputs [] = Unit
IsOwn inputs ((j, x) ∷ l) = (get_elem? inputs j ≡ some x) × IsOwn inputs l

pub record Inv (inputs : List Bytes) (s : State) : Type 0 where
  pub consumed : s.started ++ s.inputs ≡ inputs
  pub numbered : s.current_entry ≡ length s.started
  pub taken : (i idx : ℕ) (x : Bytes) → s.runs i ≡ measuring idx x → get_elem? inputs idx ≡ some x
  pub below : (i idx : ℕ) (x : Bytes) → s.runs i ≡ measuring idx x → idx < s.current_entry
  pub alone :
      (i j idx : ℕ) (x y : Bytes) → s.runs i ≡ measuring idx x → s.runs j ≡ measuring idx y → i ≡ j
  pub fresh :
      (i idx : ℕ) (x : Bytes) → s.runs i ≡ measuring idx x → is_submitted idx s.submitted ≡ false
  pub submitted_below : (idx : ℕ) → is_submitted idx s.submitted ≡ true → idx < s.current_entry
  pub once : IsOnce s.submitted
  pub own : IsOwn inputs s.submitted
  pub accounted :
      (idx : ℕ)
      → idx < s.current_entry
      → (is_submitted idx s.submitted ≡ true)
        ⊎ ((i : ℕ) × (x : Bytes) × (s.runs i ≡ measuring idx x))
  pub used_up : (i : ℕ) (e : Error) → s.runs i ≡ ended e → s.cut_short ≡ false → s.inputs ≡ []

pub start-Inv : (n : ℕ) (inputs : List Bytes) → Inv inputs (start n inputs)
unfolding is_submitted
start-Inv n inputs = record {
  consumed = refl;
  numbered = refl;
  taken = λ i idx x h. absurd (ground arith);
  below = λ i idx x h. absurd (ground arith);
  alone = λ i j idx x y h k. absurd (ground arith);
  fresh = λ i idx x h. refl;
  submitted_below = λ idx h. absurd (ground arith);
  once = tt;
  own = tt;
  accounted = λ idx h. absurd (omega arith);
  used_up = λ i e h c. absurd (ground arith);
}

get_elem?-middle :
    {A : Type 0} (xs ys : List A) (y : A) → get_elem? (xs ++ y ∷ ys) (length xs) ≡ some y
get_elem?-middle [] ys y = refl
get_elem?-middle (x ∷ xs) ys y = get_elem?-middle xs ys y

abbrev is_measuring : Run → Bool
is_measuring (measuring idx x) = true
is_measuring _ = false

-- A run that is not measuring changes to a state where it does not either.
module _ (inputs : List Bytes) (s : State) (v : Inv inputs s) (i : ℕ) where
  aside-Inv :
      (r : Run) (events : List Event) (short : Bool)
      → is_measuring r ≡ false
      → is_measuring (s.runs i) ≡ false
      → (short ≡ false → s.cut_short ≡ false)
      → ((e : Error) → r ≡ ended e → short ≡ false → s.inputs ≡ [])
      → Inv inputs (record s { runs = update s.runs i r; events = events; cut_short = short })
  aside-Inv r events short hr hi keep ends = record {
    consumed = v.consumed;
    numbered = v.numbered;
    taken = λ k idx x h. ground (arith, v.taken k idx x);
    below = λ k idx x h. ground (arith, v.below k idx x);
    alone = λ k j idx x y h l. ground (arith, v.alone k j idx x y);
    fresh = λ k idx x h. ground (arith, v.fresh k idx x);
    submitted_below = v.submitted_below;
    once = v.once;
    own = v.own;
    accounted = λ idx h. still idx (v.accounted idx h);
    used_up = λ k e h c. ground (arith, v.used_up k e, ends e, keep);
  }
    where
      still :
          (idx : ℕ)
          → (is_submitted idx s.submitted ≡ true)
            ⊎ ((k : ℕ) × (x : Bytes) × (s.runs k ≡ measuring idx x))
          → (is_submitted idx s.submitted ≡ true)
            ⊎ ((k : ℕ) × (x : Bytes) × (update s.runs i r k ≡ measuring idx x))
      still idx (inl h) = inl h
      still idx (inr (k, x, h)) = inr (k, x, ground arith)

  -- A run takes the next input.
  module _ (x : Bytes) (rest : List Bytes) (e : s.inputs ≡ x ∷ rest)
      (free : is_measuring (s.runs i) ≡ false) where
    at_index : get_elem? inputs s.current_entry ≡ some x
    at_index = rw (sym v.consumed, e, v.numbered) (get_elem?-middle s.started rest x)

    unsubmitted : is_submitted s.current_entry s.submitted ≡ false
    unsubmitted = ground (arith, v.submitted_below s.current_entry)

    take-Inv : Inv inputs (take_input i (x ∷ rest) s)
    unfolding take_input
    take-Inv = record {
      consumed = append_assoc s.started (x ∷ []) rest ∙ (rw e at (v.consumed));
      numbered = omega (arith, v.numbered, length-append s.started (x ∷ []));
      taken = λ k idx y h. ground (arith, v.taken k idx y, at_index);
      below = λ k idx y h. ground (arith, v.below k idx y);
      alone =
          λ k j idx y z h l. ground (arith, v.alone k j idx y z, v.below k idx y, v.below j idx z);
      fresh = λ k idx y h. ground (arith, v.fresh k idx y, unsubmitted);
      submitted_below = λ idx h. omega (arith, v.submitted_below idx h);
      once = v.once;
      own = v.own;
      accounted = λ idx h. now idx h;
      used_up = λ k f h c. absurd (later k f h c);
    }
      where
        before :
            (idx : ℕ)
            → (is_submitted idx s.submitted ≡ true)
              ⊎ ((k : ℕ) × (y : Bytes) × (s.runs k ≡ measuring idx y))
            → (is_submitted idx s.submitted ≡ true)
              ⊎ ((k : ℕ) × (y : Bytes) × (update s.runs i (measuring s.current_entry x) k
                    ≡ measuring idx y))
        before idx (inl l) = inl l
        before idx (inr (k, y, l)) = inr (k, y, ground arith)

        now :
            (idx : ℕ)
            → idx < s.current_entry + 1
            → (is_submitted idx s.submitted ≡ true)
              ⊎ ((k : ℕ) × (y : Bytes) × (update s.runs i (measuring s.current_entry x) k
                    ≡ measuring idx y))
        now idx h = elim (Bool-cases (idx == s.current_entry)) [
          | inl this ↦ inr (i, x, ground arith)
          | inr other ↦ before idx (v.accounted idx (ground arith))
        ]

        later :
            (k : ℕ) (f : Error)
            → update s.runs i (measuring s.current_entry x) k ≡ ended f
            → s.cut_short ≡ false
            → ⊥
        later k f h c = ground (arith, v.used_up k f)

  -- The entry of a run is given to the report.
  module _ (idx : ℕ) (x : Bytes) (m : s.runs i ≡ measuring idx x) where
    submit-Inv : Inv inputs (on_test_keys i idx x s)
    unfolding on_test_keys is_submitted
    submit-Inv = record {
      consumed = v.consumed;
      numbered = v.numbered;
      taken = λ k j y h. ground (arith, v.taken k j y);
      below = λ k j y h. ground (arith, v.below k j y);
      alone = λ k l j y z h g. ground (arith, v.alone k l j y z);
      fresh = λ k j y h. ground (arith, v.fresh k j y, v.alone i k idx x y);
      submitted_below = λ j h. ground (arith, v.submitted_below j, v.below i idx x);
      once = (v.fresh i idx x m, v.once);
      own = (v.taken i idx x m, v.own);
      accounted = λ j h. after j (v.accounted j h);
      used_up = λ k f h c. ground (arith, v.used_up k f);
    }
      where
        after :
            (j : ℕ)
            → (is_submitted j s.submitted ≡ true)
              ⊎ ((k : ℕ) × (y : Bytes) × (s.runs k ≡ measuring j y))
            → ((idx == j || is_submitted j s.submitted) ≡ true)
              ⊎ ((k : ℕ) × (y : Bytes) × (update s.runs i (writing idx x) k ≡ measuring j y))
        after j (inl h) = inl (ground arith)
        after j (inr (k, y, h)) = elim (Bool-cases (i == k)) [
          | inl same ↦ inl (ground arith)
          | inr other ↦ inr (k, y, ground arith)
        ]

  next-Inv : (exceeded : Bool) → s.runs i ≡ ready → Inv inputs (run_next_measurement i exceeded s)
  unfolding run_next_measurement
  next-Inv true h =
      aside-Inv (ended no_error) s.events true refl (rw h) (λ c. absurd (cc)) (λ e p c. absurd (cc))
  next-Inv false h = with_inputs s.inputs refl
    where
      with_inputs : (l : List Bytes) → s.inputs ≡ l → Inv inputs (take_input i l s)
      with_inputs [] e =
          unfold take_input in
          aside-Inv (ended no_error) s.events s.cut_short refl (rw h) (λ c. c) (λ _ _ _. e)
      with_inputs (x ∷ rest) e = take-Inv x rest e (rw h)

  written-Inv :
      (settings : Settings) (idx : ℕ) (x : Bytes) (failure : Error)
      → s.runs i ≡ writing idx x
      → Inv inputs (on_written settings i idx failure s)
  unfolding on_written
  written-Inv settings idx x failure h =
      elim (Bool-cases (is_error failure && not settings.ignore_write_entry_error)) [
        | inl stop ↦
            rw stop (
              aside-Inv (ended failure) _ true refl (rw h) (λ c. absurd (cc))
                (λ e p c. absurd (cc)))
        | inr go ↦
            rw go
              (aside-Inv ready _ s.cut_short refl (rw h) (λ c. c) (λ e p c. absurd (ground arith)))
      ]

pub Step-Inv :
    {settings : Settings} (inputs : List Bytes) {s t : State}
    → Step settings s t
    → Inv inputs s
    → Inv inputs t
Step-Inv inputs {s = s} (next_measurement i exceeded h) v = next-Inv inputs s v i exceeded h
Step-Inv inputs {s = s} (test_keys i idx x h) v = submit-Inv inputs s v i idx x h
Step-Inv {settings} inputs {s = s} (written i idx x failure h) v =
    written-Inv inputs s v i settings idx x failure h
