-- ===== src/Http/Cookies/Cut.antt =====
-- What the redirect code keeps of a Set-Cookie header that has attributes.
use libight.Prelude.{
  ℕ, ◌+◌, ◌≡◌, refl, [], ◌∷◌, ◌++◌, none, some, arith, length, length-append, take-append,
}
use libight.Prelude.Bytes.{Bytes, codes}
use libight.Http.Headers.{header, same_text}
use libight.Prelude.Search.{find}
use libight.Http.Cookies.{insert, insert_all, kept_text, set_cookie_text, response_cookies}
use mathlib.Core.List.{append_assoc}

find-append_semicolon :
    (w rest : Bytes)
    → find (codes ";") w ≡ none
    → find (codes ";") (w ++ b';' ∷ rest) ≡ some (length w)
unfolding find
find-append_semicolon [] rest h = ground arith
find-append_semicolon (c ∷ w) rest h = ground (arith, find-append_semicolon w rest)

cut_lem :
    (w : Bytes) (c : ℕ) (rest : Bytes)
    → kept_text ((w ++ c ∷ []) ++ b';' ∷ rest) (some (length (w ++ c ∷ []))) ≡ w ∷ []
unfolding kept_text
cut_lem w c rest =
    let len : length (w ++ c ∷ []) ≡ length w + 1 = length-append w (c ∷ []) in
    let same : (w ++ c ∷ []) ++ b';' ∷ rest ≡ w ++ (c ∷ b';' ∷ rest) =
      append_assoc w (c ∷ []) (b';' ∷ rest) in
    rw same (ground (arith, len, take-append w (c ∷ b';' ∷ rest)))

set_cookie_text_lem :
    (w : Bytes) (c : ℕ) (rest : Bytes)
    → find (codes ";") (w ++ c ∷ []) ≡ none
    → set_cookie_text ((w ++ c ∷ []) ++ b';' ∷ rest) ≡ w ∷ []
unfolding set_cookie_text
set_cookie_text_lem w c rest h = rw (find-append_semicolon (w ++ c ∷ []) rest h) (cut_lem w c rest)

-- Of a Set-Cookie header whose cookie is followed by attributes, all but the last byte of the
-- cookie is kept.
pub response_cookies_cut :
    (w : Bytes) (c : ℕ) (rest : Bytes)
    → find (codes ";") (w ++ c ∷ []) ≡ none
    → response_cookies (header (codes "Set-Cookie") ((w ++ c ∷ []) ++ b';' ∷ rest) ∷ []) [] ≡ w ∷ []
unfolding response_cookies same_text insert insert_all
response_cookies_cut w c rest h = rw (set_cookie_text_lem w c rest h, insert_all, insert) refl
