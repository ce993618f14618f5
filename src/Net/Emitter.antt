-- ===== src/Net/Emitter.antt =====
-- `EmitterBase` of net/emitter.hpp and net/emitter.cpp.
-- A handler is a value of a type `H`, and a call of it is recorded with its argument; so are the
-- calls of the virtual methods. Timeouts and the saved results of connecting are left aside.
pub mod Closing
use libight.Prelude.{
  Bool, true, false, List, [], ◌∷◌, ◌++◌, if◌then◌else◌, length, ℕ, ◌+◌, Option, some, none,
}
use libight.Prelude.Bytes.{Bytes}
use libight.Common.Error.{Error}

-- The virtual methods that a transport implements.
pub data Method : Type 0 where
  shutdown start_reading stop_reading start_writing : Method

pub data Call {ℓ} (H : Type ℓ) : Type ℓ where
  calls_connect : H → Call H
  calls_data : H → Bytes → Call H
  calls_flush : H → Call H
  calls_error : H → Error → Call H
  calls_close : H → Call H

pub record Emitter {ℓ} (H : Type ℓ) : Type ℓ where
  pub do_connect : Option H
  pub do_data : Option H
  pub do_flush : Option H
  pub do_error : Option H
  pub do_record_received_data : Bool
  pub received_data_record : Bytes
  pub do_record_sent_data : Bool
  pub sent_data_record : Bytes
  pub close_cb : Option H
  pub close_pending : Bool
  pub output_buff : Bytes
  -- the data usage of the reactor
  pub down : ℕ
  pub up : ℕ
  pub methods : List Method
  pub calls : List (Call H)

module _ {ℓ} {H : Type ℓ} where
  abbrev pub make : Emitter H
  make = record {
    do_connect = none;
    do_data = none;
    do_flush = none;
    do_error = none;
    do_record_received_data = false;
    received_data_record = [];
    do_record_sent_data = false;
    sent_data_record = [];
    close_cb = none;
    close_pending = false;
    output_buff = [];
    down = 0;
    up = 0;
    methods = [];
    calls = [];
  }

  unfoldable pub called : Emitter H → Call H → Emitter H
  called t c = record t { calls = t.calls ++ c ∷ [] }

  unfoldable pub method : Emitter H → Method → Emitter H
  method t m = record t { methods = t.methods ++ m ∷ [] }

  unfoldable pub call_connect : Emitter H → Option H → Emitter H
  call_connect t none = t
  call_connect t (some fn) = called t (calls_connect fn)

  unfoldable pub emit_connect : Emitter H → Emitter H
  emit_connect t = if t.close_pending then t else call_connect t t.do_connect

  unfoldable pub record_received : Emitter H → Bytes → Emitter H
  record_received t d =
      if t.do_record_received_data
      then record t { received_data_record = t.received_data_record ++ d }
      else t

  unfoldable pub call_data : Emitter H → Option H → Bytes → Emitter H
  call_data t none d = t
  call_data t (some fn) d = called (record t { down = t.down + length d }) (calls_data fn d)

  unfoldable pub emit_data : Emitter H → Bytes → Emitter H
  emit_data t d = if t.close_pending then t else call_data (record_received t d) t.do_data d

  unfoldable pub call_flush : Emitter H → Option H → Emitter H
  call_flush t none = t
  call_flush t (some fn) = called t (calls_flush fn)

  unfoldable pub emit_flush : Emitter H → Emitter H
  emit_flush t = if t.close_pending then t else call_flush t t.do_flush

  unfoldable pub call_error : Emitter H → Option H → Error → Emitter H
  call_error t none e = t
  call_error t (some fn) e = called t (calls_error fn e)

  unfoldable pub emit_error : Emitter H → Error → Emitter H
  emit_error t e = if t.close_pending then t else call_error t t.do_error e

  unfoldable pub on_connect : Emitter H → Option H → Emitter H
  on_connect t fn = record t { do_connect = fn }

  unfoldable pub reading : Emitter H → Option H → Emitter H
  reading t none = method t stop_reading
  reading t (some fn) = method t start_reading

  unfoldable pub on_data : Emitter H → Option H → Emitter H
  on_data t fn = if t.close_pending then t else record (reading t fn) { do_data = fn }

  unfoldable pub on_flush : Emitter H → Option H → Emitter H
  on_flush t fn = record t { do_flush = fn }

  unfoldable pub on_error : Emitter H → Option H → Emitter H
  on_error t fn = record t { do_error = fn }

  -- `none` is the exception for a close that is already pending.
  unfoldable pub close : Emitter H → Option H → Option (Emitter H)
  close t cb =
      if t.close_pending
      then none
      else some
          (record (on_error
            (on_flush
              (on_data (on_connect (method (record t { close_pending = true }) shutdown) none) none)
              none)
            none) { close_cb = cb })

  unfoldable pub record_sent : Emitter H → Bytes → Emitter H
  record_sent t d =
      if t.do_record_sent_data then record t { sent_data_record = t.sent_data_record ++ d } else t

  unfoldable pub write : Emitter H → Bytes → Emitter H
  write t d =
      let u = record_sent t d in
      let v = record u { up = u.up + length d; output_buff = u.output_buff ++ d } in
      if v.close_pending then v else method v start_writing

  unfoldable pub call_close : Emitter H → Option H → Emitter H
  call_close t none = t
  call_close t (some cb) = called t (calls_close cb)

  -- The destructor of the class.
  unfoldable pub destroy : Emitter H → Emitter H
  destroy t = call_close t t.close_cb
