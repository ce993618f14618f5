-- ===== src/Prelude/Search.antt =====
-- `std::string::find` and `rfind`: the first and the last place of a pattern. `none` is `npos`.
use libight.Prelude.{
  ℕ, zero, suc, ◌≤◌, ◌<◌, ◌≡◌, refl, Bool, true, false, ◌&&◌, [], ◌∷◌, ◌++◌, Option, none, some,
  arith, ◌==◌, ==_refl, if◌then◌else◌, length, take, drop,
}
use libight.Prelude.Bytes.{Bytes}
use mathlib.Core.Option

pub is_prefix : Bytes → Bytes → Bool
is_prefix [] s = true
is_prefix (c ∷ p) [] = false
is_prefix (c ∷ p) (d ∷ s) = c == d && is_prefix p s

-- `s.find(p)`
unfoldable pub find : Bytes → Bytes → Option ℕ
unfolding is_prefix
find p [] = if is_prefix p [] then some 0 else none
find p (c ∷ s) = if is_prefix p (c ∷ s) then some 0 else Option.map suc (find p s)

-- `s.rfind(p)`
unfoldable pub rfind : Bytes → Bytes → Option ℕ
unfolding is_prefix
rfind p [] = if is_prefix p [] then some 0 else none
rfind p (c ∷ s) = elim (rfind p s) [
  | some i ↦ some (suc i)
  | none ↦ if is_prefix p (c ∷ s) then some 0 else none
]

pub is_prefix-append : (p s : Bytes) → is_prefix p (p ++ s) ≡ true
unfolding is_prefix
is_prefix-append [] s = refl
is_prefix-append (c ∷ p) s = rw ==_refl (is_prefix-append p s)

pub is_prefix-eq : (p s : Bytes) → is_prefix p s ≡ true → s ≡ p ++ drop (length p) s
unfolding is_prefix
is_prefix-eq [] s h = refl
is_prefix-eq (c ∷ p) [] h = cc
is_prefix-eq (c ∷ p) (d ∷ s) h = ground (arith, is_prefix-eq p s)

is_prefix_short : (p s : Bytes) → length s < length p → is_prefix p s ≡ false
unfolding is_prefix
is_prefix_short [] s h = elim h [ ]
is_prefix_short (c ∷ p) [] h = refl
is_prefix_short (c ∷ p) (d ∷ s) h = ground (arith, is_prefix_short p s)

rfind_short : (p s : Bytes) → length s < length p → rfind p s ≡ none
unfolding rfind
rfind_short p [] h = rw (is_prefix_short p [] h)
rfind_short p (c ∷ s) h = rw (rfind_short p s (omega arith), is_prefix_short p (c ∷ s) h)

is_prefix_self : (p : Bytes) → is_prefix p p ≡ true
unfolding is_prefix
is_prefix_self [] = refl
is_prefix_self (c ∷ p) = rw ==_refl (is_prefix_self p)

rfind_self : (p : Bytes) → rfind p p ≡ some 0
unfolding rfind
rfind_self [] = refl
rfind_self (c ∷ p) = rw (rfind_short (c ∷ p) p (omega arith), is_prefix_self (c ∷ p))

-- The last place of a suffix is where it begins.
pub rfind-append : (s p : Bytes) → rfind p (s ++ p) ≡ some (length s)
unfolding rfind
rfind-append [] p = rfind_self p
rfind-append (c ∷ s) p = rw (rfind-append s p)

-- What `rfind` returns is a place of the pattern.
pub rfind_place : (p s : Bytes) (i : ℕ) → rfind p s ≡ some i → is_prefix p (drop i s) ≡ true
unfolding rfind
rfind_place p [] i h = ground (arith)
rfind_place p (c ∷ s) zero h = ground arith
rfind_place p (c ∷ s) (suc i) h = ground (arith, rfind_place p s i)

pub find-is_prefix : (p s : Bytes) → is_prefix p s ≡ true → find p s ≡ some 0
unfolding find
find-is_prefix p [] h = rw h
find-is_prefix p (c ∷ s) h = rw h

pub find_place : (p s : Bytes) (i : ℕ) → find p s ≡ some i → is_prefix p (drop i s) ≡ true
unfolding find
find_place p [] i h = ground arith
find_place p (c ∷ s) zero h = ground arith
find_place p (c ∷ s) (suc i) h = ground (arith, find_place p s i)

pub find_bound : (p s : Bytes) (i : ℕ) → find p s ≡ some i → i ≤ length s
unfolding find
find_bound p [] i h = ground arith
find_bound p (c ∷ s) zero h = omega arith
find_bound p (c ∷ s) (suc i) h = ground (arith, find_bound p s i)

is_prefix-take : (p s : Bytes) (i : ℕ) → is_prefix p s ≡ false → is_prefix p (take i s) ≡ false
unfolding is_prefix
is_prefix-take [] s i h = h
is_prefix-take (c ∷ p) s zero h = refl
is_prefix-take (c ∷ p) [] (suc i) h = refl
is_prefix-take (c ∷ p) (d ∷ s) (suc i) h = ground (arith, is_prefix-take p s i)

-- What stands in front of the first place of a pattern does not hold it.
pub find-take : (p s : Bytes) (i : ℕ) → 0 < length p → find p s ≡ some i → find p (take i s) ≡ none
unfolding find
find-take [] s i hp h = elim hp [ ]
find-take (d ∷ p) s zero hp h = refl
find-take (d ∷ p) [] (suc i) hp h = ground arith
find-take (d ∷ p) (c ∷ s) (suc i) hp h =
    ground (arith, find-take (d ∷ p) s i hp, is_prefix-take (d ∷ p) (c ∷ s) (suc i))
