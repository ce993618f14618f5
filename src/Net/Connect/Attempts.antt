-- ===== src/Net/Connect/Attempts.antt =====
-- Which address is connected, and what is reported.
use libight.Prelude.{
  ℕ, suc, ◌+◌, ◌≡◌, refl, sym, ap, ◌∙◌, ◌⊎◌, inl, inr, true, false, List, [], ◌∷◌, ◌++◌, Option,
  none, some, arith, length, All, Bool-cases,
}
use libight.Prelude.Bytes.{Bytes}
use mathlib.Core.List.{append_assoc, append-nil}
use mathlib.Core.Path.{subst}
use libight.Common.Error.{
  code, reason, children, error, Error, Errors, nil, cons, is_error, append_child,
}
use libight.Net.Errors.{connect_failed_error}
use libight.Net.Connect.{
  connect_first_of, add_child_errors, all_failed, first_of_done, connect_logic,
}

-- The errors of the attempts for some addresses, from an index on.
abbrev pub attempts : (ℕ → Bytes → Error) → ℕ → List Bytes → List Error
attempts attempt index [] = []
attempts attempt index (a ∷ as') = attempt index a ∷ attempts attempt (index + 1) as'

abbrev pub AllFail : List Error → Type 0
AllFail = All (λ e. is_error e ≡ true)

-- All attempts failed; or those for some addresses did, the one for the next succeeded, and no other
-- was made.
abbrev pub Tried : (ℕ → Bytes → Error) → ℕ → List Bytes → List Error × Option Bytes → Type 0
Tried attempt index addresses r =
    (AllFail (attempts attempt index addresses) × (r ≡ (attempts attempt index addresses, none)))
    ⊎ ((failing : List Bytes) × (address : Bytes) × (after : List Bytes) × (addresses
          ≡ failing ++ address ∷ after)
        × AllFail (attempts attempt index failing)
        × (is_error (attempt (index + length failing) address) ≡ false)
        × (r ≡ (
          attempts attempt index failing ++ attempt (index + length failing) address ∷ [],
          some address,
        )))

Tried-cons :
    (attempt : ℕ → Bytes → Error) (index : ℕ) (a : Bytes) (rest : List Bytes)
    (r : List Error × Option Bytes)
    → is_error (attempt index a) ≡ true
    → Tried attempt (index + 1) rest r
    → Tried attempt index (a ∷ rest) (attempt index a ∷ r.0, r.1)
Tried-cons attempt index a rest r h (inl (all, e)) = inl ((h, all), rw e)
Tried-cons attempt index a rest r h (inr (failing, address, after, e, all, success, q)) =
    let at : index + 1 + length failing ≡ index + suc (length failing) = omega arith in
    inr (a ∷ failing, address, after, ap (◌∷◌ a) e, (h, all), (rw at at (success)), rw (q, at))

-- The errors of earlier attempts stay in front.
connect_first_of-append :
    (attempt : ℕ → Bytes → Error) (index : ℕ) (addresses : List Bytes) (errors : List Error)
    → connect_first_of attempt index addresses errors ≡ (
      errors ++ (connect_first_of attempt index addresses []).0,
      (connect_first_of attempt index addresses []).1,
    )
unfolding connect_first_of
connect_first_of-append attempt index [] errors = rw (append-nil errors)
connect_first_of-append attempt index (a ∷ rest) errors =
    elim (Bool-cases (is_error (attempt index a))) [
      | inl failed ↦ rw (
        failed,
        connect_first_of-append attempt (index + 1) rest (errors ++ attempt index a ∷ []),
        connect_first_of-append attempt (index + 1) rest (attempt index a ∷ []),
        append_assoc errors (attempt index a ∷ []),
      )
      | inr fine ↦ rw fine
    ]

connect_first_of_failed :
    (attempt : ℕ → Bytes → Error) (index : ℕ) (a : Bytes) (rest : List Bytes)
    → is_error (attempt index a) ≡ true
    → connect_first_of attempt index (a ∷ rest) [] ≡ (
      attempt index a ∷ (connect_first_of attempt (index + 1) rest []).0,
      (connect_first_of attempt (index + 1) rest []).1,
    )
unfolding connect_first_of
connect_first_of_failed attempt index a rest h =
    rw (h, connect_first_of-append attempt (index + 1) rest (attempt index a ∷ []))

connect_first_of_fine :
    (attempt : ℕ → Bytes → Error) (index : ℕ) (a : Bytes) (rest : List Bytes)
    → is_error (attempt index a) ≡ false
    → connect_first_of attempt index (a ∷ rest) [] ≡ (attempt index a ∷ [], some a)
unfolding connect_first_of
connect_first_of_fine attempt index a rest h = rw h

connect_first_of-Tried :
    (attempt : ℕ → Bytes → Error) (index : ℕ) (addresses : List Bytes)
    → Tried attempt index addresses (connect_first_of attempt index addresses [])
connect_first_of-Tried attempt index [] = unfold connect_first_of in inl (tt, refl)
connect_first_of-Tried attempt index (a ∷ rest) = elim (Bool-cases (is_error (attempt index a))) [
  | inl failed ↦
      subst (λ r. Tried attempt index (a ∷ rest) r)
        (sym (connect_first_of_failed attempt index a rest failed))
        (Tried-cons attempt index a rest (connect_first_of attempt (index + 1) rest []) failed
          (connect_first_of-Tried attempt (index + 1) rest))
  | inr fine ↦
      let z : index + 0 ≡ index = omega arith in
      inr ([], a, rest, refl, tt, rw z fine, rw z (connect_first_of_fine attempt index a rest fine))
]

-- Errors as children, and behind those that are there.
abbrev pub child_errors : List Error → Errors
child_errors [] = nil
child_errors (e ∷ es) = cons e (child_errors es)

abbrev pub append_children : Errors → Errors → Errors
append_children nil ds = ds
append_children (cons c cs) ds = cons c (append_children cs ds)

append_children-nil : (cs : Errors) → append_children cs nil ≡ cs
append_children-nil nil = refl
append_children-nil (cons c cs) = ap (cons c) (append_children-nil cs)

append_child-append :
    (cs ds : Errors) (e : Error)
    → append_children (append_child cs e) ds ≡ append_children cs (cons e ds)
append_child-append nil ds e = refl
append_child-append (cons c cs) ds e = ap (cons c) (append_child-append cs ds e)

-- An error with more children.
abbrev pub with_children : Error → List Error → Error
with_children e es = error (code e) (reason e) (append_children (children e) (child_errors es))

add_child_errors_lem : (e : Error) (es : List Error) → add_child_errors e es ≡ with_children e es
add_child_errors_lem (error n r cs) [] = ap (error n r) (sym (append_children-nil cs))
add_child_errors_lem (error n r cs) (e ∷ es) =
    add_child_errors_lem (error n r (append_child cs e)) es
    ∙ ap (error n r) (append_child-append cs (child_errors es) e)

-- The only error, or the error for several ones with all of them as its children.
abbrev pub summary : List Error → Error
summary (e ∷ []) = e
summary es = error (code connect_failed_error) (reason connect_failed_error) (child_errors es)

all_failed-summary : (es : List Error) → all_failed es ≡ summary es
unfolding all_failed
all_failed-summary [] = refl
all_failed-summary (e ∷ []) = refl
all_failed-summary (e ∷ f ∷ es) = add_child_errors_lem connect_failed_error (e ∷ f ∷ es)

summary-is_error : (es : List Error) → AllFail es → is_error (summary es) ≡ true
summary-is_error [] h = refl
summary-is_error (e ∷ []) h = h.0
summary-is_error (e ∷ f ∷ es) h = refl

-- What `connect_logic` reports, as it should be.
abbrev pub Reported : (ℕ → Bytes → Error) → Error → List Bytes → Error × Option Bytes → Type 0
Reported attempt nagle addresses r =
    (AllFail (attempts attempt 0 addresses)
      × (r ≡ (summary (attempts attempt 0 addresses), none))
      × (is_error r.0 ≡ true))
    ⊎ ((failing : List Bytes) × (address : Bytes) × (after : List Bytes) × (addresses
          ≡ failing ++ address ∷ after)
        × AllFail (attempts attempt 0 failing)
        × (is_error (attempt (length failing) address) ≡ false)
        × (r ≡ (
          with_children nagle (attempts attempt 0 failing ++ attempt (length failing) address ∷ []),
          some address,
        )))

reported :
    (attempt : ℕ → Bytes → Error) (nagle : Error) (addresses : List Bytes)
    (r : List Error × Option Bytes)
    → Tried attempt 0 addresses r
    → Reported attempt nagle addresses (first_of_done nagle r)
unfolding first_of_done
reported attempt nagle addresses r (inl (all, e)) =
    let es = attempts attempt 0 addresses in
    rw (e, all_failed-summary es) (inl (all, refl, summary-is_error es all))
reported attempt nagle addresses r (inr (failing, address, after, e, all, success, q)) =
    let z : 0 + length failing ≡ length failing = omega arith in
    rw q (
      inr (
        failing,
        address,
        after,
        e,
        all,
        rw z at success,
        rw
            (
              z,
              add_child_errors_lem nagle
                  (attempts attempt 0 failing ++ attempt (length failing) address ∷ []),
            )
            refl,
      ))

-- Of the addresses that the resolver gives, either all attempts failed, nothing is connected and an
-- error is reported, which is that of the attempt if there was just one, and else has the errors of
-- all attempts, in order, as its children; or the first address is connected whose attempt succeeds,
-- and the error is that of disabling Nagle's algorithm with the errors of the attempts that were made
-- as its children, in order.
pub connect_logic_lem :
    (attempt : ℕ → Bytes → Error) (nagle : Error) (a : Bytes) (rest : List Bytes)
    → Reported attempt nagle (a ∷ rest) (connect_logic attempt nagle (a ∷ rest))
unfolding connect_logic
connect_logic_lem attempt nagle a rest =
    reported attempt nagle (a ∷ rest) _ (connect_first_of-Tried attempt 0 (a ∷ rest))
