-- ===== src/Net/Emitter/Closing.antt =====
-- What an emitter does once it was closed.
use libight.Prelude.{◌≡◌, refl, ◌∙◌, ap, true, List, [], ◌∷◌, ◌++◌, Option, some, none, arith, Bool}
use libight.Prelude.Bytes.{Bytes}
use libight.Common.Error.{Error}
use libight.Net.Emitter.{
  Emitter, Method, shutdown, Call, calls_close, called, method, emit_connect, emit_data, emit_flush,
  emit_error, on_connect, on_data, on_flush, on_error, close, record_sent, write, call_close,
  destroy,
}

-- A call of a method of the class.
pub data Op {ℓ} (H : Type ℓ) : Type ℓ where
  emits_connect emits_flush : Op H
  emits_data : Bytes → Op H
  emits_error : Error → Op H
  registers_connect registers_data registers_flush registers_error : Option H → Op H
  records_received records_sent : Bool → Op H
  writes : Bytes → Op H
  closes : Option H → Op H

module _ {ℓ} {H : Type ℓ} where
  -- A close that throws leaves the emitter as it is.
  unless_refused : Emitter H → Option (Emitter H) → Emitter H
  unless_refused t none = t
  unless_refused t (some u) = u

  unfoldable pub step : Emitter H → Op H → Emitter H
  unfolding unless_refused
  step t emits_connect = emit_connect t
  step t emits_flush = emit_flush t
  step t (emits_data d) = emit_data t d
  step t (emits_error e) = emit_error t e
  step t (registers_connect fn) = on_connect t fn
  step t (registers_data fn) = on_data t fn
  step t (registers_flush fn) = on_flush t fn
  step t (registers_error fn) = on_error t fn
  step t (records_received on) = record t { do_record_received_data = on }
  step t (records_sent on) = record t { do_record_sent_data = on }
  step t (writes d) = write t d
  step t (closes cb) = unless_refused t (close t cb)

  unfoldable pub run : Emitter H → List (Op H) → Emitter H
  run t [] = t
  run t (op ∷ ops) = run (step t op) ops

  -- What a closed emitter keeps.
  abbrev kept : Emitter H → Bool × List (Call H) × Option H × Option H × List Method
  kept t = (t.close_pending, t.calls, t.close_cb, t.do_data, t.methods)

  kept-write : (t : Emitter H) (d : Bytes) → t.close_pending ≡ true → kept (write t d) ≡ kept t
  unfolding write record_sent method
  kept-write t d h = ground arith

  kept-step : (t : Emitter H) (op : Op H) → t.close_pending ≡ true → kept (step t op) ≡ kept t
  unfolding step on_connect on_flush on_error emit_connect emit_flush emit_data emit_error on_data
      close unless_refused
  kept-step t emits_connect h = rw h refl
  kept-step t emits_flush h = rw h refl
  kept-step t (emits_data d) h = rw h refl
  kept-step t (emits_error e) h = rw h refl
  kept-step t (registers_connect fn) h = refl
  kept-step t (registers_flush fn) h = refl
  kept-step t (registers_error fn) h = refl
  kept-step t (registers_data fn) h = rw h refl
  kept-step t (records_received on) h = refl
  kept-step t (records_sent on) h = refl
  kept-step t (writes d) h = kept-write t d h
  kept-step t (closes cb) h = rw h refl

  kept-run :
      (t : Emitter H) (ops : List (Op H)) → t.close_pending ≡ true → kept (run t ops) ≡ kept t
  unfolding run
  kept-run t [] h = refl
  kept-run t (op ∷ ops) h =
      let k = kept-step t op h in kept-run (step t op) ops (ap (λ v. v.0) k ∙ h) ∙ k

  -- What a close that succeeds leaves.
  record Closed (t : Emitter H) (cb : Option H) (u : Emitter H) : Type ℓ where
    pub pending : u.close_pending ≡ true
    pub callback : u.close_cb ≡ cb
    pub calls_same : u.calls ≡ t.calls
    pub handler_same : u.do_data ≡ t.do_data
    pub methods_then : u.methods ≡ t.methods ++ shutdown ∷ []

  close-Closed :
      (t : Emitter H) (cb : Option H) (u : Emitter H) → close t cb ≡ some u → Closed t cb u
  unfolding close on_connect on_flush on_error on_data method
  close-Closed t cb u h = record {
    pending = ground arith;
    callback = ground arith;
    calls_same = ground arith;
    handler_same = ground arith;
    methods_then = ground arith;
  }

  -- After a close has succeeded, whatever is emitted, registered, recorded, written or closed, no
  -- handler is called any more, and when the emitter is destroyed the callback of that close is
  -- called, once.
  pub close-calls :
      (t : Emitter H) (cb : H) (u : Emitter H) (ops : List (Op H))
      → close t (some cb) ≡ some u
      → (destroy (run u ops)).calls ≡ t.calls ++ calls_close cb ∷ []
  unfolding destroy call_close called
  close-calls t cb u ops h =
      let c = close-Closed t (some cb) u h in
      let k = kept-run u ops c.pending in
      rw (ap (λ v. v.2) k ∙ c.callback, ap (λ v. v.1) k ∙ c.calls_same) refl

  -- After a close has succeeded, whatever is emitted, registered, recorded, written or closed, the
  -- data handler is still the one that was registered before the close, and shutdown is the only
  -- virtual method that was called since.
  pub close-do_data :
      (t : Emitter H) (cb : Option H) (u : Emitter H) (ops : List (Op H))
      → close t cb ≡ some u
      → ((run u ops).do_data ≡ t.do_data) × ((run u ops).methods ≡ t.methods ++ shutdown ∷ [])
  close-do_data t cb u ops h =
      let c = close-Closed t cb u h in
      let k = kept-run u ops c.pending in
      (ap (λ v. v.3) k ∙ c.handler_same, ap (λ v. v.4) k ∙ c.methods_then)
