-- ===== src/Common/Parallel/Invariant.antt =====
-- What holds of `parallel` at every moment, whatever order the continuations call back in.
use libight.Prelude.{
  ℕ, ◌+◌, ◌-◌, ◌≤◌, ◌<◌, ◌≡◌, refl, ◌⊎◌, inl, true, false, not, ◌&&◌, [], ◌∷◌, arith, ◌==◌, ltb,
  if◌then◌else◌, length, get_elem?, set, length-set, get_elem?-set_ne, length-replicate,
}
use libight.Common.Error.{Error, no_error}
use libight.Common.Parallel.Counting.{
  one, count, count-update_waiting, count-update_finished, count-le, count-lt, count-idle,
  any_error, any_error-set, any_error-replicate, is_clean, is_clean-replicate,
}
use libight.Common.Parallel.{
  Status, idle, waiting, finished, State, update, start, run, call_back, Step, launch, answer,
  Reach, here, next,
}

pub record Inv (s : State) : Type 0 where
  pub positive : 0 < s.parallelism
  pub in_range : (i : ℕ) → s.size ≤ i → s.status i ≡ idle
  pub counted : s.completed ≡ count s.status s.size
  pub long : length s.children ≡ s.size
  pub clean : (i : ℕ) → i < s.size → one (s.status i) ≡ 0 → is_clean (get_elem? s.children i) ≡ true
  pub coded : not (s.code == 0) ≡ any_error s.children
  pub looped : (i : ℕ) → s.loop ≤ i → i < s.parallelism → s.status i ≡ idle
  pub chained :
      (i : ℕ) → s.parallelism ≤ i → (s.status i ≡ idle) ⊎ (s.status (i - s.parallelism) ≡ finished)
  pub onward :
      (i : ℕ)
      → i < s.size
      → s.status i ≡ idle
      → ((s.loop ≤ i) × (i < s.parallelism))
        ⊎ ((s.parallelism ≤ i) × (one (s.status (i - s.parallelism)) ≡ 0))
  pub replied :
      s.reported ≡ (if s.completed == s.size then (s.code, s.reason, s.children) ∷ [] else [])
  pub calm : s.thrown ≡ false

pub start-Inv : (size parallelism : ℕ) → 0 < size → Inv (start size parallelism)
unfolding start
start-Inv size parallelism h = record {
  positive = ground arith;
  in_range = λ i x. refl;
  counted = ground (arith, count-idle size);
  long = length-replicate size no_error;
  clean = λ i x y. is_clean-replicate size i x;
  coded = ground (arith, any_error-replicate size);
  looped = λ i x y. refl;
  chained = λ i x. inl refl;
  onward = λ i x y. ground arith;
  replied = ground arith;
  calm = refl;
}

module _ (s : State) (v : Inv s) (more : s.loop < s.parallelism) where
  at_loop : s.status s.loop ≡ idle
  at_loop = v.looped s.loop (omega arith) more

  launch-Inv : Inv (record (run s.loop s) { loop = s.loop + 1 })
  unfolding run
  launch-Inv = record {
    positive = ground (arith, v.positive);
    in_range = λ i x. ground (arith, v.in_range i);
    counted = ground (arith, v.counted, at_loop, count-update_waiting s.status s.loop s.size);
    long = ground (arith, v.long);
    clean = λ i x y. ground (arith, v.clean i, at_loop);
    coded = ground (arith, v.coded);
    looped = λ i x y. ground (arith, v.looped i);
    chained = λ i x. ground (arith, v.chained i, at_loop);
    onward = λ i x y. ground (arith, v.onward i, at_loop);
    replied = ground (arith, v.replied);
    calm = ground (arith, v.calm);
  }

module _ (s : State) (v : Inv s) (i : ℕ) (e : Error) (w : s.status i ≡ waiting) where
  below : i < s.size
  below = ground (arith, v.in_range i)

  marked : count (update s.status i finished) s.size ≡ count s.status s.size + 1
  marked = count-update_finished s.status i s.size below (ground (arith, w))

  pub room : s.completed < s.size
  room = omega (arith, v.counted, marked, count-le (update s.status i finished) s.size)

  follower : s.status (i + s.parallelism) ≡ idle
  follower =
      let same : i + s.parallelism - s.parallelism ≡ i = omega arith in
      ground (arith, v.chained (i + s.parallelism), same, w)

  pub answer-size : (call_back i e s).size ≡ s.size
  unfolding call_back
  answer-size = ground (arith, room)

  pub answer-parallelism : (call_back i e s).parallelism ≡ s.parallelism
  unfolding call_back
  answer-parallelism = ground (arith, room)

  pub answer-loop : (call_back i e s).loop ≡ s.loop
  unfolding call_back
  answer-loop = ground (arith, room)

  pub answer-completed : (call_back i e s).completed ≡ s.completed + 1
  unfolding call_back
  answer-completed = ground (arith, room)

  answer-children : (call_back i e s).children ≡ set s.children i e
  unfolding call_back
  answer-children = ground (arith, room)

  after : ℕ → Status
  after j =
      if not (s.completed + 1 == s.size) && ltb (i + s.parallelism) s.size && i + s.parallelism == j
      then waiting
      else update s.status i finished j

  answer-status : (j : ℕ) → (call_back i e s).status j ≡ after j
  unfolding call_back after
  answer-status j = ground (arith, room)

  after-clean :
      (j : ℕ) → j < s.size → one (after j) ≡ 0 → is_clean (get_elem? (set s.children i e) j) ≡ true
  unfolding after
  after-clean j x y =
      ground (arith, v.clean j x, get_elem?-set_ne s.children i j e, w, follower, v.positive)

  after-chained :
      (j : ℕ) → s.parallelism ≤ j → (after j ≡ idle) ⊎ (after (j - s.parallelism) ≡ finished)
  unfolding after
  after-chained j x = ground (arith, v.chained j x, w, follower, v.positive)

  after-onward :
      (j : ℕ)
      → j < s.size
      → after j ≡ idle
      → ((s.loop ≤ j) × (j < s.parallelism))
        ⊎ ((s.parallelism ≤ j) × (one (after (j - s.parallelism)) ≡ 0))
  unfolding after
  after-onward j x y = ground (
    arith,
    v.onward j x,
    v.chained j,
    w,
    follower,
    v.positive,
    v.counted,
    marked,
    count-lt (update s.status i finished) j s.size x,
  )

  answer-clean :
      (t : State)
      → t.size ≡ s.size
      → t.children ≡ set s.children i e
      → ((j : ℕ) → t.status j ≡ after j)
      → (j : ℕ) → j < t.size
      → one (t.status j) ≡ 0
      → is_clean (get_elem? t.children j) ≡ true
  answer-clean t n c f j x y =
      let h = after-clean j (ground (arith, n, x)) (ground (arith, f j, y)) in rw c h

  answer-chained :
      (t : State)
      → t.parallelism ≡ s.parallelism
      → ((j : ℕ) → t.status j ≡ after j)
      → (j : ℕ) → t.parallelism ≤ j
      → (t.status j ≡ idle) ⊎ (t.status (j - t.parallelism) ≡ finished)
  answer-chained t p f j x =
      rw (p, f j, f (j - s.parallelism)) (after-chained j (ground (arith, p, x)))

  answer-onward :
      (t : State)
      → t.size ≡ s.size
      → t.parallelism ≡ s.parallelism
      → t.loop ≡ s.loop
      → ((j : ℕ) → t.status j ≡ after j)
      → (j : ℕ) → j < t.size
      → t.status j ≡ idle
      → ((t.loop ≤ j) × (j < t.parallelism))
        ⊎ ((t.parallelism ≤ j) × (one (t.status (j - t.parallelism)) ≡ 0))
  answer-onward t n p l f j x y =
      rw (p, l, f (j - s.parallelism))
        (after-onward j (ground (arith, n, x)) (ground (arith, f j, y)))

  answer-Inv : Inv (call_back i e s)
  unfolding call_back
  answer-Inv = record {
    positive = ground (arith, v.positive, room);
    in_range = λ j x. ground (arith, v.in_range j, below, room);
    counted = ground (
      arith,
      v.counted,
      marked,
      room,
      follower,
      count-update_waiting (update s.status i finished) (i + s.parallelism) s.size,
    );
    long = ground (arith, v.long, room, length-set s.children i e);
    clean = answer-clean (call_back i e s) answer-size answer-children answer-status;
    coded =
        ground (
          arith,
          v.coded,
          room,
          any_error-set s.children i e (v.clean i below (ground (arith, w))),
        );
    looped = λ j x y. ground (arith, v.looped j, w, room);
    chained = answer-chained (call_back i e s) answer-parallelism answer-status;
    onward =
        answer-onward (call_back i e s) answer-size answer-parallelism answer-loop answer-status;
    replied = ground (arith, v.replied, room);
    calm = ground (arith, v.calm, room);
  }

pub Step-Inv : (s t : State) → Inv s → Step s t → Inv t
Step-Inv s _ v (launch more) = launch-Inv s v more
Step-Inv s _ v (answer i e w) = answer-Inv s v i e w

pub Reach-ParallelInv :
    (size parallelism : ℕ) (s : State) → 0 < size → Reach (start size parallelism) s → Inv s
Reach-ParallelInv size parallelism _ h here = start-Inv size parallelism h
Reach-ParallelInv size parallelism _ h (next {t} {u} r x) =
    Step-Inv t u (Reach-ParallelInv size parallelism t h r) x
