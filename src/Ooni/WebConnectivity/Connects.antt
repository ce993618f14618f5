-- ===== src/Ooni/WebConnectivity/Connects.antt =====
-- The connections that `compare_tcp_connect` marks as blocked.
use libight.Prelude.{
  ◌+◌, ◌≡◌, refl, ap, ◌∙◌, inl, inr, Bool, true, false, not, ◌&&◌, ◌||◌, List, [], ◌∷◌, ◌++◌, map,
  none, some, arith, length, length-append, All, Option-cases,
}
use libight.Prelude.Bytes.{Bytes}
use mathlib.Core.List.{append_assoc}
use libight.Net.Address.{is_set}
use libight.Ooni.WebConnectivity.Document.{TcpResult}
use libight.Ooni.WebConnectivity.Compare.{
  lookup, address_port, set_blocked, connect_loop, compare_tcp_connect,
}

-- The control could connect and the experiment could not.
abbrev pub is_blocked : List (Bytes × Bool) → TcpResult → Bool
is_blocked control r = elim (lookup (address_port r) control) [
  | none ↦ false
  | some ctrl_status ↦ ctrl_status && not r.success
]

abbrev pub marked : List (Bytes × Bool) → TcpResult → TcpResult
marked control r = record r { blocked = some (is_blocked control r) }

pub any_blocked : List (Bytes × Bool) → List TcpResult → Bool
any_blocked control [] = false
any_blocked control (r ∷ rs) = is_blocked control r || any_blocked control rs

set_blocked-append :
    (done : List TcpResult) (b : Bool) (r : TcpResult) (rs : List TcpResult)
    → set_blocked (length done) b (done ++ r ∷ rs)
      ≡ (done ++ record r { blocked = some b } ∷ []) ++ rs
unfolding set_blocked
set_blocked-append [] b r rs = refl
set_blocked-append (d ∷ done) b r rs = ap (◌∷◌ d) (set_blocked-append done b r rs)

IsKnown-cases :
    (control : List (Bytes × Bool)) (r : TcpResult)
    → is_set (lookup (address_port r) control) ≡ true
    → (v : Bool) × (lookup (address_port r) control ≡ some v)
IsKnown-cases control r h = elim (Option-cases (lookup (address_port r) control)) [
  | inl missing ↦ absurd (ground (arith, missing))
  | inr (v, e) ↦ (v, e)
]

pair_lem :
    (done : List TcpResult) (r : TcpResult) (rs : List TcpResult) (s b c : Bool)
    → ◌≡◌ {A = List TcpResult × Bool}
        ((done ++ r ∷ []) ++ rs, s && not b && not c)
        (done ++ r ∷ rs, s && not (b || c))
pair_lem done r rs s b c = rw (append_assoc done (r ∷ []) rs) (ground arith)

connect_loop_lem :
    (control : List (Bytes × Bool)) (rs done : List TcpResult) (s : Bool)
    → All (λ r. is_set (lookup (address_port r) control) ≡ true) rs
    → connect_loop control rs (length done) (done ++ rs) s
      ≡ (done ++ map (marked control) rs, s && not (any_blocked control rs))
unfolding connect_loop any_blocked
connect_loop_lem control [] done s a = ground arith
connect_loop_lem control (r ∷ rs) done s a =
    let (v, e) = IsKnown-cases control r a.0 in
    let b = v && not r.success in
    let more = done ++ record r { blocked = some b } ∷ [] in
    let len : length more ≡ length done + 1 =
      length-append done (record r { blocked = some b } ∷ []) in
    let rest = connect_loop_lem control rs more (s && not b) a.1 in
    let same : is_blocked control r ≡ b = rw (e, is_blocked) refl in
    let tail : ◌≡◌ {A = List TcpResult × Bool}
        (more ++ map (marked control) rs, s && not b && not (any_blocked control rs))
        (done ++ map (marked control) (r ∷ rs), s && not (any_blocked control (r ∷ rs))) =
      rw same (
        pair_lem done (record r { blocked = some b }) (map (marked control) rs) s b
          (any_blocked control rs)) in
    rw (e, connect_loop) (rw (set_blocked-append done b r rs) (rw len at rest ∙ tail))

-- Where the control has a result for each connection, just those connections are marked as
-- blocked that the control could make and the experiment could not, and the comparison
-- succeeds when there is none.
pub compare_tcp_connect_lem :
    (control : List (Bytes × Bool)) (rs : List TcpResult)
    → All (λ r. is_set (lookup (address_port r) control) ≡ true) rs
    → ◌≡◌ {A = List TcpResult × Bool}
        (compare_tcp_connect control rs)
        (map (marked control) rs, not (any_blocked control rs))
unfolding compare_tcp_connect
compare_tcp_connect_lem control rs a = connect_loop_lem control rs [] true a
