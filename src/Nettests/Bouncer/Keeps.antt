-- ===== src/Nettests/Bouncer/Keeps.antt =====
-- What the bouncer says never replaces an option.
use libight.Prelude.{
  ◌≡◌, refl, sym, ap, ◌∙◌, Bool, true, false, not, ◌||◌, List, [], ◌∷◌, ◌++◌, All, if◌then◌else◌,
  arith, Bool-cases, inl, inr,
}
use libight.Prelude.Bytes.{Bytes, codes}
use mathlib.Core.List.{append_assoc, append-nil}
use libight.Common.Error.{Error, ErrorOr, ok, err, no_error, value_error}
use libight.Nettests.Bouncer.{
  BouncerReply, Options, has_option, State, emit_failure, assign_option, set_option, set_helper,
  use_normal_helper, use_helper, use_helpers, use_collector, on_bouncer_reply, query_bouncer,
}

-- The options are followed by some that were not there.
record Adds (o p : Options) : Type 0 where
  pub extra : Options
  pub followed : p ≡ o ++ extra
  pub absent : All (λ m. has_option m.0 o ≡ false) extra

has_option-append :
    (key : Bytes) (o p : Options) → has_option key (o ++ p) ≡ (has_option key o || has_option key p)
unfolding has_option
has_option-append key [] p = refl
has_option-append key ((k, v) ∷ o) p = ground (arith, has_option-append key o p)

abbrev IsAbsent : Options → Options → Type 0
IsAbsent o = All (λ m. has_option m.0 o ≡ false)

IsAbsent-weaken : (o e g : Options) → IsAbsent (o ++ e) g → IsAbsent o g
IsAbsent-weaken o e [] h = tt
IsAbsent-weaken o e (y ∷ g) h =
    (ground (arith, has_option-append y.0 o e), IsAbsent-weaken o e g h.1)

IsAbsent-append : (o e g : Options) → IsAbsent o e → IsAbsent o g → IsAbsent o (e ++ g)
IsAbsent-append o [] g he hg = hg
IsAbsent-append o (x ∷ e) g he hg = (he.0, IsAbsent-append o e g he.1 hg)

Adds-nothing : (o : Options) → Adds o o
Adds-nothing o = record { extra = []; followed = sym (append-nil o); absent = tt }

Adds-trans : (o p q : Options) → Adds o p → Adds p q → Adds o q
Adds-trans o p q a b = record {
  extra = a.extra ++ b.extra;
  followed = b.followed ∙ (ap (λ l. l ++ b.extra) a.followed ∙ append_assoc o a.extra b.extra);
  absent =
      IsAbsent-append o a.extra b.extra a.absent
        (IsAbsent-weaken o a.extra b.extra (rw a.followed at (b.absent)));
}

assign_option-append :
    (k v : Bytes) (o : Options) → has_option k o ≡ false → assign_option k v o ≡ o ++ (k, v) ∷ []
unfolding assign_option has_option
assign_option-append k v [] h = refl
assign_option-append k v ((l, w) ∷ o) h = ground (arith, assign_option-append k v o)

set_option-Adds :
    (k v : Bytes) (s : State)
    → has_option k s.options ≡ false
    → Adds s.options (set_option k v s).options
unfolding set_option
set_option-Adds k v s missing = record {
  extra = (k, v) ∷ [];
  followed = assign_option-append k v s.options missing;
  absent = (missing, tt);
}

set_helper-Adds : (k v : Bytes) (s : State) → Adds s.options (set_helper k v s).options
unfolding set_helper
set_helper-Adds k v s = elim (Bool-cases (has_option k s.options)) [
  | inl there ↦ rw there (Adds-nothing s.options)
  | inr missing ↦ rw missing (set_option-Adds k v s missing)
]

emit_failure-Adds : (e : Error) (s : State) → Adds s.options (emit_failure e s).options
unfolding emit_failure
emit_failure-Adds e s = Adds-nothing s.options

use_normal_helper-Adds :
    (option : Bytes) (r : ErrorOr Bytes) (s : State)
    → Adds s.options (use_normal_helper option r s).options
unfolding use_normal_helper
use_normal_helper-Adds option (err e) s = emit_failure-Adds e s
use_normal_helper-Adds option (ok helper) s = set_helper-Adds option helper s

module _ (reply : BouncerReply) where
  use_helper-Adds :
      (m : Bytes × Bytes) (r : ErrorOr Bytes) (s : State)
      → Adds s.options (use_helper reply m r s).options
  unfolding use_helper
  use_helper-Adds (name, option) (err e) s =
      use_normal_helper-Adds option (reply.get_test_helper name) s
  use_helper-Adds (name, option) (ok helper) s = set_helper-Adds option helper s

  use_helpers-Adds :
      (helpers : List (Bytes × Bytes)) (s : State)
      → Adds s.options (use_helpers reply helpers s).options
  unfolding use_helpers
  use_helpers-Adds [] s = Adds-nothing s.options
  use_helpers-Adds ((name, option) ∷ helpers) s =
      let t =
        use_helper reply (name, option) (reply.get_test_helper_alternate name (codes "https")) s in
      Adds-trans s.options t.options _ (use_helper-Adds (name, option) _ s)
        (use_helpers-Adds helpers t)

  use_collector-Adds :
      (helpers : List (Bytes × Bytes)) (r : ErrorOr Bytes) (s : State)
      → has_option (codes "collector_base_url") s.options ≡ false
      → Adds s.options (use_collector reply helpers r s).0.options
  unfolding use_collector
  use_collector-Adds helpers (err e) s missing = emit_failure-Adds e s
  use_collector-Adds helpers (ok collector) s missing =
      let t = set_option (codes "collector_base_url") collector s in
      Adds-trans s.options t.options _ (set_option-Adds _ collector s missing)
        (use_helpers-Adds helpers t)

on_bouncer_reply-Adds :
    (helpers : List (Bytes × Bytes)) (r : ErrorOr BouncerReply) (s : State)
    → Adds s.options (on_bouncer_reply helpers r s).0.options
unfolding on_bouncer_reply
on_bouncer_reply-Adds helpers (err e) s = emit_failure-Adds e s
on_bouncer_reply-Adds helpers (ok reply) s =
    elim (Bool-cases (has_option (codes "collector_base_url") s.options)) [
      | inl there ↦ rw there (use_helpers-Adds reply helpers s)
      | inr missing ↦ rw missing (use_collector-Adds reply helpers _ s missing)
    ]

-- Whatever the bouncer replies, the options stay as they were and are only followed by others, none of
-- which is an option that was there.
pub query_bouncer_keeps :
    (use_bouncer : Bool) (setting : ErrorOr Bool) (helpers : List (Bytes × Bytes))
    (reply : ErrorOr BouncerReply) (s : State)
    → (extra : Options) × ((query_bouncer use_bouncer setting helpers reply s).0.options
        ≡ s.options ++ extra)
      × All (λ m. has_option m.0 s.options ≡ false) extra
query_bouncer_keeps use_bouncer setting helpers reply s =
    let a = adds setting in (a.extra, a.followed, a.absent)
  where
    asked :
        (b : Bool)
        → Adds s.options (if b then (s, no_error) else on_bouncer_reply helpers reply s).0.options
    asked true = Adds-nothing s.options
    asked false = on_bouncer_reply-Adds helpers reply s

    adds :
        (r : ErrorOr Bool) → Adds s.options (query_bouncer use_bouncer r helpers reply s).0.options
    adds (err e) = unfold query_bouncer in emit_failure-Adds value_error s
    adds (ok disable_bouncer) = unfold query_bouncer in asked (not use_bouncer || disable_bouncer)
