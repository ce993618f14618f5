-- ===== src/Net/Socks5/Reply.antt =====
-- How the SOCKSv5 client waits for the reply, and what it hands out then.
use libight.Prelude.{
  ◌≡◌, ◌≢◌, refl, sym, ap, ◌∙◌, inl, inr, true, false, List, [], ◌∷◌, ◌++◌, arith, append-eq-append,
  List-cases,
}
use libight.Prelude.Bytes.{Bytes}
use mathlib.Core.Path.{subst}
use mathlib.Core.List.{append-nil, append_assoc}
use libight.Common.Error.{ok}
use libight.Net.Buffer.Libevent.{flat}
use libight.Net.Socks5.{parse_connect_response}
use libight.Net.Socks5.Wire.{IsReply, parse_complete, parse_partial}
use libight.Net.Socks5.Machine.{
  reply, connected, Event, connect, data_event, error_event, Config, Socks5, on_data, on_all,
}

-- The bytes that the data events hand out.
abbrev pub delivered : List Event → Bytes
delivered [] = []
delivered (data_event d ∷ es) = d ++ delivered es
delivered (_ ∷ es) = delivered es

delivered-append : (es fs : List Event) → delivered (es ++ fs) ≡ delivered es ++ delivered fs
delivered-append [] fs = refl
delivered-append (connect ∷ es) fs = delivered-append es fs
delivered-append (error_event e ∷ es) fs = delivered-append es fs
delivered-append (data_event d ∷ es) fs =
    ap (◌++◌ d) (delivered-append es fs) ∙ sym (append_assoc d (delivered es) (delivered fs))

-- The client is up, and has handed out `out`.
abbrev pub Up : Bytes → Socks5 → Type 0
Up out s = (s.phase ≡ connected) × (delivered s.events ≡ out)

on_data-Up :
    (c : Config) (d : Bytes) (s : Socks5) (out : Bytes) → Up out s → Up (out ++ d) (on_data c s d)
unfolding on_data
on_data-Up c d s out h = ground (arith, delivered-append s.events (data_event d ∷ []), append-nil d)

pub on_all-Up :
    (c : Config) (ds : List Bytes) (s : Socks5) (out : Bytes)
    → Up out s
    → Up (out ++ flat ds) (on_all c s ds)
unfolding on_all
on_all-Up c [] s out h = rw (append-nil out) h
on_all-Up c (d ∷ ds) s out h =
    rw (← append_assoc out d (flat ds))
      (on_all-Up c ds (on_data c s d) (out ++ d) (on_data-Up c d s out h))

-- The client waits for the rest of the reply, `q`, and has handed out nothing.
pub record IsWaiting (c : Config) (q : Bytes) (s : Socks5) : Type 0 where
  pub waits : s.phase ≡ reply
  pub is_open : s.isclosed ≡ false
  pub holds : IsReply c.signed (s.buffer ++ q)
  pub silent : delivered s.events ≡ []
  pub more : q ≢ []

-- The two outcomes of the reply handler that are not errors.
on_data_more :
    (c : Config) (d : Bytes) (s : Socks5)
    → s.phase ≡ reply
    → parse_connect_response c.signed (s.buffer ++ d) ≡ (ok false, s.buffer ++ d)
    → on_data c s d ≡ record s { buffer = s.buffer ++ d }
unfolding on_data
on_data_more c d s waits step = ground (arith, waits, step)

pub on_data_done :
    (c : Config) (d rest : Bytes) (s : Socks5)
    → s.phase ≡ reply
    → c.closes ≡ false
    → s.isclosed ≡ false
    → parse_connect_response c.signed (s.buffer ++ d) ≡ (ok true, rest)
    → delivered s.events ≡ []
    → Up rest (on_data c s d)
unfolding on_data
on_data_done c d rest s waits stays is_open step silent = ground (
  arith,
  waits,
  step,
  delivered-append s.events (connect ∷ []),
  delivered-append (s.events ++ connect ∷ []) (data_event rest ∷ []),
  append-nil rest,
  List-cases rest,
)

on_data_partial :
    (c : Config) (d q : Bytes) (s : Socks5)
    → q ≢ []
    → IsWaiting c (d ++ q) s
    → IsWaiting c q (on_data c s d)
on_data_partial c d q s more w =
    let longer : IsReply c.signed ((s.buffer ++ d) ++ q) = rw append_assoc w.holds in
    rw (on_data_more c d s w.waits (parse_partial c.signed (s.buffer ++ d) q longer more)) (record {
      waits = w.waits;
      is_open = w.is_open;
      holds = longer;
      silent = w.silent;
      more = more;
    })

on_data_complete :
    (c : Config) (q rest : Bytes) (s : Socks5)
    → c.closes ≡ false
    → IsWaiting c q s
    → Up rest (on_data c s (q ++ rest))
on_data_complete c q rest s stays w =
    on_data_done c (q ++ rest) rest s w.waits stays w.is_open
      (rw (← append_assoc s.buffer q rest) (parse_complete c.signed (s.buffer ++ q) rest w.holds))
      w.silent

on_all_past :
    (c : Config) (d : Bytes) (ds : List Bytes) (q v rest : Bytes) (s : Socks5)
    → c.closes ≡ false
    → IsWaiting c q s
    → d ≡ q ++ v
    → rest ≡ v ++ flat ds
    → Up rest (on_all c (on_data c s d) ds)
on_all_past c d ds q v rest s stays w p r =
    rw (p, r) (on_all-Up c ds (on_data c s (q ++ v)) v (on_data_complete c q v s stays w))

pub on_all_waiting :
    (c : Config) (ds : List Bytes) (q rest : Bytes) (s : Socks5)
    → c.closes ≡ false
    → IsWaiting c q s
    → flat ds ≡ q ++ rest
    → Up rest (on_all c s ds)
unfolding on_all
on_all_waiting c [] q rest s stays w e = absurd (w.more (ground (arith, List-cases q)))
on_all_waiting c (d ∷ ds) q rest s stays w e = elim (append-eq-append d (flat ds) q rest e) [
  | inl ([], p, r) ↦
      on_all_past c d ds q [] rest s stays w (sym (append-nil d) ∙ sym p ∙ sym (append-nil q))
        (sym r)
  | inl (x ∷ v, p, r) ↦
      on_all_waiting c ds (x ∷ v) rest (on_data c s d) stays
        (on_data_partial c d (x ∷ v) s (λ f. cc) (subst (λ y. IsWaiting c y s) p w)) r
  | inr (v, p, r) ↦ on_all_past c d ds q v rest s stays w p r
]
