-- ===== src/Common/Text.antt =====
-- Text helpers of common/utils.cpp and common/utils.hpp over byte strings.
-- `split` is in Text/Split.
pub mod Split
use mathlib.Core.List.{append-nil}
use libight.Prelude.{
  ℕ, zero, suc, ◌+◌, ◌-◌, ◌*◌, ◌/◌, ◌%◌, ◌^◌, ◌≤◌, ◌<◌, ◌≡◌, ◌≢◌, ◌↔◌, refl, sym, ap, ◌∙◌, ◌⊎◌, inl,
  inr, Bool, true, false, not, ◌&&◌, ◌||◌, List, [], ◌∷◌, ◌++◌, map, Option, none, some, arith,
  ◌==◌, ltb, leb, ltb→lt, lt→ltb, leb→le, le→leb, ==_iff, ==_refl, if◌then◌else◌, length,
  length-append, take, drop, get_elem?, set, replicate, All, length-set, get_elem?-set_self,
  get_elem?-set_ne, length-replicate, length-take, length-drop, take-append-drop, take_all,
  drop_all, drop-append, take-append, length-reverse, length-map, Bool-cases, Option-cases,
  List-cases,
}
use libight.Prelude.Bytes.{Bytes, codes, beq, beq_iff, beq_refl}
use libight.Prelude.Search.{
  is_prefix, find, rfind, is_prefix-append, is_prefix-eq, rfind-append, rfind_place, find-is_prefix,
  find_place,
}

unfoldable pub startswith : Bytes → Bytes → Bool
startswith s p = elim (find p s) [ none ↦ false | some i ↦ i == 0 ]

unfoldable pub endswith : Bytes → Bytes → Bool
endswith s p =
    if leb (length p) (length s)
    then (elim (rfind p s) [ none ↦ false | some i ↦ i == length s - length p ])
    else false

-- `startswith` holds exactly when the text is the prefix followed by something.
pub startswith_iff : (s p : Bytes) → (startswith s p ≡ true) ↔ ((t : Bytes) × (s ≡ p ++ t))
unfolding startswith
startswith_iff s p =
    (λ h. (drop (length p) s, is_prefix-eq p s (place h)), λ w. rw (found w.0 w.1, startswith))
  where
    place : startswith s p ≡ true → is_prefix p s ≡ true
    place h = ground (arith, find_place p s 0)

    found : (t : Bytes) → s ≡ p ++ t → find p s ≡ some 0
    found t e = find-is_prefix p s (rw e (is_prefix-append p t))

-- `endswith` holds exactly when the text is something followed by the suffix.
pub endswith_iff : (s p : Bytes) → (endswith s p ≡ true) ↔ ((t : Bytes) × (s ≡ t ++ p))
unfolding endswith
endswith_iff s p = (forth, λ w. back w.0 w.1)
  where
    place : endswith s p ≡ true → is_prefix p (drop (length s - length p) s) ≡ true
    place h = ground (arith, rfind_place p s (length s - length p))

    forth : endswith s p ≡ true → (t : Bytes) × (s ≡ t ++ p)
    forth h =
        let i = length s - length p in
        let at = is_prefix-eq p (drop i s) (place h) in
        let none_left = drop_all (length p) (drop i s) (omega (arith, length-drop i s)) in
        (
          take i s,
          sym (take-append-drop i s) ∙ ap (◌++◌ (take i s)) (at ∙ rw none_left (append-nil p)),
        )

    back : (t : Bytes) → s ≡ t ++ p → endswith s p ≡ true
    back t e = ground (arith, rfind-append t p, length-append t p)
