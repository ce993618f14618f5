-- ===== src/Ndt/Queue.antt =====
-- The wait in the queue: heartbeats are answered until the server lets the client in.
use libight.Prelude.{
  ℕ, zero, suc, ◌+◌, ◌<◌, ◌≡◌, ◌≢◌, refl, true, false, List, [], ◌∷◌, ◌++◌, arith, some,
  if◌then◌else◌, ltb, ◌==◌, length, length-append, All, Bool-cases, inl, inr,
}
use libight.Prelude.Bytes.{Bytes}
use mathlib.Core.List.{append_assoc, append-nil}
use libight.Common.Error.{ok}
use libight.Common.Scalar.{lexical_cast_unsigned}
use libight.Net.Transport.{Event}
use libight.Net.Transport.Cutting.{view}
use libight.Ndt.Context.{Context, returns, M}
use libight.Ndt.Messages.{
  Json, srv_queue, msg_waiting, parsed, text_of, read_json, read_msg, format_any, formatted,
  format_msg_waiting, write_noasync,
}
use libight.Ndt.Protocol.{
  available, answer_heartbeat, on_wait_time, wait_in_queue_loop, wait_in_queue,
}
use libight.Ndt.Framing.{message, read_ll-message, Agree-returns, given-Same}
use libight.Ndt.Cutting.{IsReal, items, Same}
use libight.Ndt.Cutting.Phases.{wait_in_queue-Steady}

-- A text that is read as a document with a text that is a wait time.
pub record Tells (j : Json) (p : Bytes) (t : ℕ) : Type 0 where
  pub accepted : j.is_json p ≡ true
  pub text : Bytes
  pub text_under : j.msg_of p ≡ some text
  pub time : lexical_cast_unsigned text ≡ ok t
  pub fits : length p < 65536

-- A wait time that asks for more patience.
pub record IsKept (t : ℕ) : Type 0 where
  pub ne_zero : t ≢ 0
  pub ne_fault : t ≢ 9977
  pub ne_busy : t ≢ 9987
  pub ne_busy_60s : t ≢ 9999

abbrev pub queue : List (Bytes × ℕ) → Bytes → Bytes
queue [] last = message srv_queue last
queue ((p, t) ∷ ts) last = message srv_queue p ++ queue ts last

-- What is sent in answer: the message of the text `w` for each heartbeat.
abbrev pub answers : Bytes → List (Bytes × ℕ) → Bytes
answers w [] = []
answers w ((p, t) ∷ ts) = (if t == 9990 then message msg_waiting w else []) ++ answers w ts

module _ (j : Json) (w : Bytes) (waiting : j.dump_msg [] ≡ some w) (fits : length w < 65536) where
  read_msg-message :
      (c : Context) (type t : ℕ) (p rest : Bytes) (m : Tells j p t)
      → read_msg j (record c { buff = message type p ++ rest })
        ≡ returns (type, m.text) (record c { buff = rest })
  unfolding read_msg read_json parsed text_of
  read_msg-message c type t p rest m =
      rw (read_ll-message c type p rest m.fits, m.accepted, m.text_under)

  answer_heartbeat_lem :
      (c : Context)
      → answer_heartbeat j c
        ≡ returns tt (record c { written = c.written ++ message msg_waiting w })
  unfolding answer_heartbeat format_msg_waiting formatted format_any write_noasync
  answer_heartbeat_lem c =
      let e : ltb 65535 (length w) ≡ false = ground arith in rw (waiting, formatted, e)

  on_wait_time-kept :
      (again : M (Unit {0})) (t : ℕ) (c : Context)
      → IsKept t
      → on_wait_time j again t c
        ≡ again
            (record c { written = c.written ++ (if t == 9990 then message msg_waiting w else []) })
  unfolding on_wait_time
  on_wait_time-kept again t c k =
      let a : (t == 0) ≡ false = ground (arith, k.ne_zero) in
      let b : (t == 9977) ≡ false = ground (arith, k.ne_fault) in
      let d : (t == 9987) ≡ false = ground (arith, k.ne_busy) in
      let e : (t == 9999) ≡ false = ground (arith, k.ne_busy_60s) in
      elim (Bool-cases (t == 9990)) [
        | inl beat ↦ rw (a, b, d, e, beat, answer_heartbeat_lem c)
        | inr other ↦ rw (a, b, d, e, other, append-nil c.written)
      ]

  on_wait_time-zero : (again : M (Unit {0})) (c : Context) → on_wait_time j again 0 c ≡ returns tt c
  unfolding on_wait_time
  on_wait_time-zero again c = refl

  wait_in_queue_loop_lem :
      (ts : List (Bytes × ℕ)) (last rest : Bytes) (fuel : ℕ) (c : Context)
      → All (λ m. Tells j m.0 m.1 × IsKept m.1) ts
      → Tells j last 0
      → length ts < fuel
      → wait_in_queue_loop j fuel (record c { buff = queue ts last ++ rest })
        ≡ returns tt (record c { buff = rest; written = c.written ++ answers w ts })
  unfolding wait_in_queue_loop
  wait_in_queue_loop_lem ts last rest zero c ks l h = absurd (omega arith)
  wait_in_queue_loop_lem [] last rest (suc fuel) c ks l h =
      rw (
        read_msg-message c srv_queue 0 last rest l,
        l.time,
        on_wait_time-zero,
        append-nil c.written,
      )
  wait_in_queue_loop_lem ((p, t) ∷ ts) last rest (suc fuel) c (k, ks) l h = rw (
    append_assoc p (queue ts last) rest,
    read_msg-message c srv_queue t p (queue ts last ++ rest) k.0,
    k.0.time,
    on_wait_time-kept (wait_in_queue_loop j fuel) t (record c { buff = queue ts last ++ rest }) k.1,
    wait_in_queue_loop_lem ts last rest fuel
        (record c { written = c.written ++ (if t == 9990 then message msg_waiting w else []) }) ks l
        (omega arith),
    append_assoc c.written (if t == 9990 then message msg_waiting w else []) (answers w ts),
  )

  length-queue : (ts : List (Bytes × ℕ)) (last : Bytes) → length ts < length (queue ts last)
  length-queue [] last = omega arith
  length-queue ((p, t) ∷ ts) last =
      omega (arith, length-queue ts last, length-append p (queue ts last))

  -- Where the messages of the queue are wait times that ask for more patience and then 0, the wait
  -- succeeds however they are cut: each heartbeat was answered once and nothing else was sent, and
  -- just what comes after the last of them is left.
  pub wait_in_queue_lem :
      (ts : List (Bytes × ℕ)) (last rest : Bytes) (es : List Event) (c : Context)
      → All (λ m. Tells j m.0 m.1 × IsKept m.1) ts
      → Tells j last 0
      → items c ≡ view (queue ts last ++ rest) es
      → All IsReal (items c)
      → (c' : Context) × (wait_in_queue j c ≡ returns tt c')
        × Same c' (record c { buff = rest; incoming = es; written = c.written ++ answers w ts })
  wait_in_queue_lem ts last rest es c ks l e real =
      let d : Context = record c { buff = queue ts last ++ rest; incoming = es } in
      Agree-returns 0 (available c) tt
        (record d { buff = rest; written = c.written ++ answers w ts })
        (wait_in_queue-Steady j c d (given-Same c (queue ts last ++ rest) es e real))
        (unfold wait_in_queue in
          wait_in_queue_loop_lem ts last rest (available d + 1) d ks l
            (omega (arith, length-queue ts last, length-append (queue ts last) rest)))
