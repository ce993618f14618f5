-- ===== src/Net/Transport.antt =====
-- `readn` and `read` of net/transport.cpp, on the events that the transport gives to its handlers.
-- A read registers handlers and takes them off when it is done, so an event goes to the read that is
-- under way.
pub mod Cutting
use libight.Prelude.{ℕ, List, [], ◌∷◌, ◌++◌, leb, ltb, if◌then◌else◌, length}
use libight.Prelude.Bytes.{Bytes}
use libight.Common.Error.{Error, no_error}

pub data Event : Type 0 where
  data_event : Bytes → Event
  error_event : Error → Event

-- The callback's argument with the buffer and the events that are left, or the buffer while the
-- read waits.
pub data Reading : Type 0 where
  calls : Error → Bytes → List Event → Reading
  waits : Bytes → Reading

-- The handlers of `readn`.
unfoldable pub on_events : ℕ → Bytes → List Event → Reading
on_events n buff [] = waits buff
on_events n buff (data_event d ∷ es) =
    if ltb (length (buff ++ d)) n then on_events n (buff ++ d) es else calls no_error (buff ++ d) es
on_events n buff (error_event e ∷ es) = calls e buff es

unfoldable pub readn : ℕ → Bytes → List Event → Reading
unfolding on_events
readn n buff es = if leb n (length buff) then calls no_error buff es else on_events n buff es

unfoldable pub read : Bytes → List Event → Reading
read buff es = readn 1 buff es
