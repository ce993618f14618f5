-- ===== src/Http/Headers.antt =====
-- The headers of http/http.hpp: a list of keys and values, in the order of the message.
use libight.Prelude.{ℕ, ◌+◌, Bool, true, ◌&&◌, List, [], ◌∷◌, ◌++◌, leb, ◌==◌, if◌then◌else◌}
use libight.Prelude.Bytes.{Bytes}

pub record Header : Type 0 where
  pub key : Bytes
  pub value : Bytes

-- `tolower` in the C locale.
abbrev pub tolower : ℕ → ℕ
tolower c = if leb 65 c && leb c 90 then c + 32 else c

-- `strcasecmp(a, b) == 0`: a NUL ends a C string.
unfoldable pub same_text : Bytes → Bytes → Bool
same_text [] [] = true
same_text [] (y ∷ ys) = y == 0
same_text (x ∷ xs) [] = x == 0
same_text (x ∷ xs) (y ∷ ys) = if x == 0 then y == 0 else tolower x == tolower y && same_text xs ys

unfoldable pub headers_find_first : List Header → Bytes → Bytes
headers_find_first [] key = []
headers_find_first (h ∷ hs) key = if same_text h.key key then h.value else headers_find_first hs key

abbrev pub header : Bytes → Bytes → Header
header k v = record { key = k; value = v }

unfoldable pub headers_push_back : List Header → Bytes → Bytes → List Header
headers_push_back headers key value = headers ++ header key value ∷ []
