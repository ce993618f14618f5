-- ===== src/Common/Parallel/Progress.antt =====
-- Whatever order the continuations call back in, `parallel` comes to call `cb`, and calls it once.
use libight.Prelude.{
  ℕ, zero, suc, ◌+◌, ◌-◌, ◌≤◌, ◌<◌, ◌≡◌, refl, ◌⊎◌, inl, inr, false, not, [], ◌∷◌, arith, ◌==◌, ltb,
  ltb→lt, length, Bool-cases,
}
use libight.Common.Error.{Error, no_error}
use libight.Common.Parallel.Counting.{one, count-le, count_gap, any_error}
use libight.Common.Parallel.Invariant.{
  Inv, Step-Inv, room, answer-size, answer-parallelism, answer-loop, answer-completed,
}
use libight.Common.Parallel.{
  Status, idle, waiting, finished, State, start, run, call_back, Step, launch, answer, Reach, next,
}

-- What is left to do: rounds of the loop, and continuations that have not called back.
pub remaining : State → ℕ
remaining s = (s.parallelism - s.loop) + (s.size - s.completed)

-- `cb` was called once, with all the children; its error is set just when a child has one.
abbrev pub IsReported : State → Type 0
IsReported s =
    (s.reported ≡ (s.code, s.reason, s.children) ∷ [])
    × (length s.children ≡ s.size)
    × (not (s.code == 0) ≡ any_error s.children)
    × (s.thrown ≡ false)

Status-cases : (x : Status) → one x ≡ 0 → (x ≡ idle) ⊎ (x ≡ waiting)
Status-cases idle h = inl refl
Status-cases waiting h = inr refl
Status-cases finished h = absurd (omega (arith, h))

module _ (s : State) (v : Inv s) where
  -- Below one that has not called back there is one that waits.
  find_waiting :
      (fuel i : ℕ)
      → i < fuel
      → i < s.size
      → s.parallelism ≤ s.loop
      → one (s.status i) ≡ 0
      → (k : ℕ) × (s.status k ≡ waiting)
  find_waiting zero i lt below done o = absurd (omega arith)
  find_waiting (suc fuel) i lt below done o = elim (Status-cases (s.status i) o) [
    | inr w ↦ (i, w)
    | inl d ↦ elim (v.onward i below d) [
      | inl (a, b) ↦ absurd (omega arith)
      | inr (a, b) ↦
          find_waiting fuel (i - s.parallelism) (omega (arith, v.positive)) (omega arith) done b
    ]
  ]

  pub enabled : s.completed < s.size → (t : State) × Step s t
  enabled h = elim (Bool-cases (ltb s.loop s.parallelism)) [
    | inl more ↦
        (record (run s.loop s) { loop = s.loop + 1 }, launch (ltb→lt s.loop s.parallelism more))
    | inr not_more ↦
        let (i, below, o) = count_gap s.status s.size (omega (arith, v.counted)) in
        let (k, w) = find_waiting (suc i) i (omega arith) below (ground (arith, not_more)) o in
        (call_back k no_error s, answer k no_error w)
  ]

launch-remaining :
    (s : State)
    → s.loop < s.parallelism
    → remaining (record (run s.loop s) { loop = s.loop + 1 }) < remaining s
unfolding remaining run
launch-remaining s more = ground arith

answer-remaining :
    (s : State) (v : Inv s) (i : ℕ) (e : Error)
    → s.status i ≡ waiting
    → remaining (call_back i e s) < remaining s
unfolding remaining
answer-remaining s v i e w =
    rw
      (
        answer-parallelism s v i e w,
        answer-loop s v i e w,
        answer-size s v i e w,
        answer-completed s v i e w,
      )
      (let r = room s v i e w in omega arith)

-- Each step leaves less to do.
pub Step-remaining : (s t : State) → Inv s → Step s t → remaining t < remaining s
Step-remaining s _ v (launch more) = launch-remaining s more
Step-remaining s _ v (answer i e w) = answer-remaining s v i e w

Inv-IsReported : (s : State) → Inv s → s.completed ≡ s.size → IsReported s
Inv-IsReported s v h = (ground (arith, v.replied, h), v.long, v.coded, v.calm)

complete :
    (fuel size parallelism : ℕ) (s : State)
    → remaining s < fuel
    → Inv s
    → Reach (start size parallelism) s
    → (t : State) × Reach (start size parallelism) t × IsReported t
complete zero size parallelism s lt v r = absurd (omega arith)
complete (suc fuel) size parallelism s lt v r = elim (Bool-cases (s.completed == s.size)) [
  | inl e ↦ (s, r, Inv-IsReported s v (ground arith))
  | inr ne ↦
      let (t, x) = enabled s v (ground (arith, v.counted, count-le s.status s.size, ne)) in
      let less = Step-remaining s t v x in
      complete fuel size parallelism t (omega arith) (Step-Inv s t v x) (next r x)
]
