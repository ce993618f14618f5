-- ===== src/Nettests/Bouncer.antt =====
-- `Runnable::query_bouncer` of nettests/runnable.cpp. The request to the bouncer and the document of
-- its reply are parameters.
pub mod Keeps
use libight.Prelude.{
  Bool, true, false, not, ◌||◌, List, [], ◌∷◌, ◌++◌, Option, none, some, if◌then◌else◌,
}
use libight.Prelude.Bytes.{Bytes, codes, beq}
use libight.Common.Error.{Error, ErrorOr, ok, err, no_error, value_error}

-- The look-ups in a `BouncerReply`.
pub record BouncerReply : Type 0 where
  pub get_collector_alternate : Bytes → ErrorOr Bytes
  pub get_test_helper : Bytes → ErrorOr Bytes
  pub get_test_helper_alternate : Bytes → Bytes → ErrorOr Bytes

abbrev pub Options : Type 0
Options = List (Bytes × Bytes)

-- `options.find(key) != options.end()`
unfoldable pub has_option : Bytes → Options → Bool
has_option key [] = false
has_option key ((k, v) ∷ o) = beq k key || has_option key o

-- The failures of the events "failure.startup", and the options.
pub record State : Type 0 where
  pub options : Options
  pub failures : List Error

unfoldable pub emit_failure : Error → State → State
emit_failure e s = record s { failures = s.failures ++ e ∷ [] }

-- `options[key] = value`
unfoldable pub assign_option : Bytes → Bytes → Options → Options
assign_option key value [] = (key, value) ∷ []
assign_option key value ((k, v) ∷ o) =
    let rest = assign_option key value o in if beq k key then (k, value) ∷ o else (k, v) ∷ rest

unfoldable pub set_option : Bytes → Bytes → State → State
set_option key value s = record s { options = assign_option key value s.options }

-- A helper that was discovered, for an option that is not there yet.
unfoldable pub set_helper : Bytes → Bytes → State → State
set_helper key value s = if has_option key s.options then s else set_option key value s

-- The helper of a name, with "https" if there is one.
unfoldable pub use_normal_helper : Bytes → ErrorOr Bytes → State → State
unfolding set_helper
use_normal_helper option (err e) s = emit_failure e s
use_normal_helper option (ok helper) s = set_helper option helper s

unfoldable pub use_helper : BouncerReply → Bytes × Bytes → ErrorOr Bytes → State → State
unfolding set_helper
use_helper reply (name, option) (err e) s = use_normal_helper option (reply.get_test_helper name) s
use_helper reply (name, option) (ok helper) s = set_helper option helper s

-- The loop over `test_helpers_data`.
unfoldable pub use_helpers : BouncerReply → List (Bytes × Bytes) → State → State
use_helpers reply [] s = s
use_helpers reply ((name, option) ∷ helpers) s =
    use_helpers reply helpers
      (use_helper reply (name, option) (reply.get_test_helper_alternate name (codes "https")) s)

unfoldable pub use_collector :
    BouncerReply → List (Bytes × Bytes) → ErrorOr Bytes → State → State × Error
unfolding set_option
use_collector reply helpers (err e) s = (emit_failure e s, e)
use_collector reply helpers (ok collector) s =
    (use_helpers reply helpers (set_option (codes "collector_base_url") collector s), no_error)

-- The callback of the request.
unfoldable pub on_bouncer_reply :
    List (Bytes × Bytes) → ErrorOr BouncerReply → State → State × Error
on_bouncer_reply helpers (err e) s = (emit_failure e s, e)
on_bouncer_reply helpers (ok reply) s =
    if has_option (codes "collector_base_url") s.options
    then (use_helpers reply helpers s, no_error)
    else use_collector reply helpers (reply.get_collector_alternate (codes "https")) s

unfoldable pub query_bouncer :
    Bool → ErrorOr Bool → List (Bytes × Bytes) → ErrorOr BouncerReply → State → State × Error
query_bouncer use_bouncer (err e) helpers reply s = (emit_failure value_error s, e)
query_bouncer use_bouncer (ok disable_bouncer) helpers reply s =
    if not use_bouncer || disable_bouncer then (s, no_error) else on_bouncer_reply helpers reply s
