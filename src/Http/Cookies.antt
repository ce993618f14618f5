-- ===== src/Http/Cookies.antt =====
-- The cookies that `request` of http/request.cpp sends along when it follows a redirect.
pub mod Cut
use libight.Prelude.{
  ℕ, ◌-◌, ◌≡◌, Bool, true, false, not, ◌&&◌, ◌||◌, List, [], ◌∷◌, ◌++◌, Option, none, some, ltb,
  ◌==◌, if◌then◌else◌, take,
}
use libight.Prelude.Bytes.{Bytes, codes, beq}
use libight.Prelude.Search.{find}
use libight.Common.Text.Split.{split}
use libight.Http.Headers.{Header, same_text}

-- `operator<` of `std::string`
unfoldable pub blt : Bytes → Bytes → Bool
blt [] [] = false
blt [] (y ∷ ys) = true
blt (x ∷ xs) [] = false
blt (x ∷ xs) (y ∷ ys) = ltb x y || (x == y && blt xs ys)

-- `std::set<std::string>::insert`, on the elements in order
unfoldable pub insert : Bytes → List Bytes → List Bytes
insert s [] = s ∷ []
insert s (t ∷ ts) =
    let rest = insert s ts in if blt s t then s ∷ t ∷ ts else if blt t s then t ∷ rest else t ∷ ts

unfoldable pub insert_all : List Bytes → List Bytes → List Bytes
insert_all [] cookies = cookies
insert_all (s ∷ ss) cookies = insert_all ss (insert s cookies)

-- The text of a Set-Cookie header that is kept, `h.value.substr(0, idx - 1)` where it has a `;`.
kept_text : Bytes → Option ℕ → List Bytes
kept_text value none = value ∷ []
kept_text value (some idx) = if idx == 0 then [] else take (idx - 1) value ∷ []

set_cookie_text : Bytes → List Bytes
unfolding kept_text
set_cookie_text value = kept_text value (find (codes ";") value)

-- Step 1
unfoldable pub response_cookies : List Header → List Bytes → List Bytes
unfolding set_cookie_text
response_cookies [] cookies = cookies
response_cookies (h ∷ hs) cookies =
    let kept = response_cookies hs (insert_all (set_cookie_text h.value) cookies) in
    let skipped = response_cookies hs cookies in
    if same_text h.key (codes "Set-Cookie") then kept else skipped

-- `split` always returns
pieces : Option (List Bytes) → List Bytes
pieces none = []
pieces (some ps) = ps

-- Step 2
unfoldable pub request_cookies : List Header → List Bytes → List Bytes
unfolding pieces
request_cookies [] cookies = cookies
request_cookies (h ∷ hs) cookies =
    let kept = request_cookies hs (insert_all (pieces (split h.value (codes "; "))) cookies) in
    let skipped = request_cookies hs cookies in
    if same_text h.key (codes "Cookie") then kept else skipped

unfoldable pub cookiestring_from : Bytes → List Bytes → Bytes
cookiestring_from cookiestring [] = cookiestring
cookiestring_from cookiestring (s ∷ d) =
    cookiestring_from
      ((if not (beq cookiestring []) then cookiestring ++ codes "; " else cookiestring) ++ s) d

-- `cookiestring`, from the headers of the response and of the request
unfoldable pub cookiestring : List Header → List Header → Bytes
cookiestring response request =
    cookiestring_from [] (request_cookies request (response_cookies response []))
