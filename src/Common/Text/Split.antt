-- ===== src/Common/Text/Split.antt =====
-- `split` of common/utils.hpp.
use libight.Prelude.{
  ℕ, zero, suc, ◌+◌, ◌<◌, ◌≡◌, ◌≢◌, refl, sym, ap, ◌∙◌, inl, inr, List, [], ◌∷◌, ◌++◌, Option, none,
  some, arith, length, length-append, take, drop, All, length-drop, take-append, All-concat,
  Option-cases, some_inj,
}
use libight.Prelude.Bytes.{Bytes}
use mathlib.Core.List.{append-nil, append_assoc}
use mathlib.Core.Path.{subst}
use libight.Prelude.Search.{find, find-take}

push_nonempty : List Bytes → Bytes → List Bytes
push_nonempty res [] = res
push_nonempty res (c ∷ r) = res ++ (c ∷ r) ∷ []

-- The loop of `split`; `none` means that the fuel ran out.
split_from : ℕ → Bytes → Bytes → List Bytes → Option (List Bytes)
unfolding push_nonempty
split_from zero p s res = none
split_from (suc f) p [] res = some res
split_from (suc f) p (c ∷ s) res = elim (find p (c ∷ s)) [
  | none ↦ some (res ++ (c ∷ s) ∷ [])
  | some idx ↦ split_from f p (drop (idx + length p) (c ∷ s)) (push_nonempty res (take idx (c ∷ s)))
]

-- Each round takes at least one byte away, so the length is enough fuel.
unfoldable pub split : Bytes → Bytes → Option (List Bytes)
unfolding split_from
split s [] = some (s ∷ [])
split s (c ∷ p) = split_from (length s + 1) (c ∷ p) s []

split_from_total :
    (f : ℕ) (p s : Bytes) (res : List Bytes)
    → 0 < length p
    → length s < f
    → (r : List Bytes) × (split_from f p s res ≡ some r)
unfolding split_from
split_from_total zero p s res hp h = elim h [ ]
split_from_total (suc f) p [] res hp h = (res, refl)
split_from_total (suc f) p (c ∷ s) res hp h = elim (Option-cases (find p (c ∷ s))) [
  | inl e ↦ (res ++ (c ∷ s) ∷ [], rw (e, split_from))
  | inr (i, e) ↦
      let (r, q) =
        split_from_total f p (drop (i + length p) (c ∷ s)) (push_nonempty res (take i (c ∷ s))) hp
          (omega (arith, length-drop (i + length p) (c ∷ s))) in
      (r, rw (e, split_from) q)
]

-- `split` always ends.
pub split_total : (s p : Bytes) → (r : List Bytes) × (split s p ≡ some r)
unfolding split
split_total s [] = (s ∷ [], refl)
split_total s (c ∷ p) = split_from_total (length s + 1) (c ∷ p) s [] (omega arith) (omega arith)

-- A piece is not empty and does not hold the pattern.
abbrev pub IsPiece : Bytes → Bytes → Type 0
IsPiece p w = (w ≢ []) × (find p w ≡ none)

-- The pieces with one separator byte between two of them.
pub join : ℕ → List Bytes → Bytes
join d [] = []
join d (w ∷ []) = w
join d (w ∷ v ∷ ws) = w ++ d ∷ join d (v ∷ ws)

find-append_sep :
    (d : ℕ) (w rest : Bytes)
    → find (d ∷ []) w ≡ none
    → find (d ∷ []) (w ++ d ∷ rest) ≡ some (length w)
unfolding find
find-append_sep d [] rest h = ground arith
find-append_sep d (c ∷ w) rest h = ground (arith, find-append_sep d w rest)

drop_past_sep : (w : Bytes) (d : ℕ) (rest : Bytes) → drop (length w + 1) (w ++ d ∷ rest) ≡ rest
drop_past_sep [] d rest = refl
drop_past_sep (c ∷ w) d rest = ground (arith, drop_past_sep w d rest)

split_from-join :
    (d f : ℕ) (ws res : List Bytes)
    → All (IsPiece (d ∷ [])) ws
    → length (join d ws) < f
    → split_from f (d ∷ []) (join d ws) res ≡ some (res ++ ws)
unfolding split_from join
split_from-join d zero ws res h l = elim l [ ]
split_from-join d (suc f) [] res h l = ap some (sym (append-nil res))
split_from-join d (suc f) ([] ∷ ws) res h l = absurd (h.0.0 refl)
split_from-join d (suc f) ((c ∷ w) ∷ []) res h l = rw (h.0.1, split_from)
split_from-join d (suc f) ((c ∷ w) ∷ v ∷ ws) res h l =
    let rest = join d (v ∷ ws) in
    let whole = length-append w (d ∷ rest) in
    let shorter : length rest < f = omega (arith, whole) in
    rw (find-append_sep d (c ∷ w) rest h.0.1, split_from)
      (rw (drop_past_sep (c ∷ w) d rest, take-append w (d ∷ rest))
        (split_from-join d f (v ∷ ws) (res ++ (c ∷ w) ∷ []) h.1 shorter
          ∙ ap some (append_assoc res ((c ∷ w) ∷ []) (v ∷ ws))))

-- `split` on a byte takes apart what was joined from pieces.
pub split-join :
    (d : ℕ) (ws : List Bytes) → All (IsPiece (d ∷ [])) ws → split (join d ws) (d ∷ []) ≡ some ws
unfolding split
split-join d ws h = split_from-join d _ ws [] h (omega arith)

push_nonempty_pieces :
    (p : Bytes) (res : List Bytes) (w : Bytes)
    → All (IsPiece p) res
    → find p w ≡ none
    → All (IsPiece p) (push_nonempty res w)
unfolding push_nonempty
push_nonempty_pieces p res [] a h = a
push_nonempty_pieces p res (c ∷ w) a h = All-concat (IsPiece p) res (c ∷ w) a (λ e. cc, h)

split_from_pieces :
    (f : ℕ) (p s : Bytes) (res r : List Bytes)
    → 0 < length p
    → All (IsPiece p) res
    → split_from f p s res ≡ some r
    → All (IsPiece p) r
unfolding split_from
split_from_pieces zero p s res r hp a e = cc
split_from_pieces (suc f) p [] res r hp a e = subst (All (IsPiece p)) (some_inj e) a
split_from_pieces (suc f) p (c ∷ s) res r hp a e = elim (Option-cases (find p (c ∷ s))) [
  | inl miss ↦
      subst (All (IsPiece p)) (some_inj (rw (miss, split_from) at e))
        (All-concat (IsPiece p) res (c ∷ s) a (λ q. cc, miss))
  | inr (i, hit) ↦
      split_from_pieces f p (drop (i + length p) (c ∷ s)) (push_nonempty res (take i (c ∷ s))) r hp
        (push_nonempty_pieces p res (take i (c ∷ s)) a (find-take p (c ∷ s) i hp hit))
        (rw (hit, split_from) at e)
]

-- `split` returns, and no piece is empty or holds the pattern, when the pattern is not empty.
pub split_pieces :
    (s p : Bytes) → 0 < length p → (r : List Bytes) × (split s p ≡ some r) × All (IsPiece p) r
unfolding split
split_pieces s [] hp = elim hp [ ]
split_pieces s (c ∷ p) hp =
    let (r, e) = split_total s (c ∷ p) in
    (r, e, split_from_pieces (length s + 1) (c ∷ p) s [] r hp tt e)
