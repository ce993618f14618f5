-- ===== src/Http/Url/RoundTrip.antt =====
-- A URL that was written by `str` is parsed back.
use libight.Prelude.{
  ℕ, ◌+◌, ◌≡◌, ◌≢◌, refl, sym, ap, ◌∙◌, ◌||◌, inl, inr, true, false, not, [], ◌∷◌, ◌++◌, none, some,
  arith, if◌then◌else◌, length, length-append, Bool-cases, List-cases,
}
use libight.Prelude.Bytes.{Bytes, codes, beq, beq_iff}
use mathlib.Core.List.{append_assoc, append-nil}
use libight.Common.Error.{ok}
use libight.Prelude.Decimal.{to_string}
use libight.Net.Address.{UrlFields, Libraries, substr, substr_at, is_set, is_ipv6_addr}
use libight.Net.Address.RoundTrip.{substr-append}
use libight.Http.Url.{
  Url, lower_schema, lower_part, part_or, url_port, fields_url, parse_url, port_shown, str,
}

-- The shape of the URLs that `parse_url` makes, where no part that http_parser finds is empty: the
-- schema is in lower case, the path is not empty, and it and the query make up `pathquery`.
pub record IsNormal (u : Url) : Type 0 where
  pub lower : lower_schema u.schema ≡ some u.schema
  pub some_path : u.path ≢ []
  pub whole : u.pathquery ≡ (if beq u.query [] then u.path else u.path ++ (codes "?" ++ u.query))

-- The URL with the port that its text stands for: `str` writes a port for http and https only, and
-- without one the port of another schema, such as httpo, is read as 80.
abbrev pub written : Url → Url
written u = record u {
  port = if beq u.schema (codes "http") || beq u.schema (codes "https") then u.port else 80;
}

-- The last part, behind one byte.
substr_last :
    (xs ys : Bytes) (c : ℕ) (zs : Bytes)
    → substr (xs ++ (ys ++ c ∷ zs)) (length xs + length ys + 1, length zs) ≡ some zs
substr_last xs ys c zs =
    let front = xs ++ (ys ++ c ∷ []) in
    let len : length front ≡ length xs + length ys + 1 =
      omega (arith, length-append xs (ys ++ c ∷ []), length-append ys (c ∷ [])) in
    let same : front ++ (zs ++ []) ≡ xs ++ (ys ++ c ∷ zs) = simp (append_assoc, append-nil) in
    rw (same, len) at (substr-append front zs [])

module _ (lib : Libraries) where
  abbrev before_address : Url → Bytes
  before_address u =
      u.schema ++ (codes "://" ++ (if is_ipv6_addr lib u.address then codes "[" else []))

  abbrev after_address : Url → Bytes
  after_address u =
      (if is_ipv6_addr lib u.address then codes "]" else [])
      ++ (if port_shown u then codes ":" ++ to_string u.port else [])

  abbrev before_path : Url → Bytes
  before_path u = before_address u ++ (u.address ++ after_address u)

  -- Where the parts of a URL are in its text.
  unfoldable pub layout : Url → UrlFields
  layout u = record {
    schema = some (0, length u.schema);
    host = some (length (before_address u), length u.address);
    port = if port_shown u then some u.port else none;
    path = some (length (before_path u), length u.path);
    query =
        if beq u.query []
        then none
        else some (length (before_path u) + length u.path + 1, length u.query);
  }

  query_text : Url → Bytes
  query_text u = if beq u.query [] then [] else codes "?" ++ u.query

  pathquery_text :
      (u : Url)
      → IsNormal u
      → (if not (beq u.pathquery []) then u.pathquery else codes "/") ≡ u.path ++ query_text u
  unfolding query_text
  pathquery_text u n =
      ground
        (arith, n.whole, n.some_path, List-cases u.path, beq_iff u.pathquery [], append-nil u.path)

  str-address :
      (u : Url)
      → IsNormal u
      → str lib u ≡ before_address u ++ (u.address ++ (after_address u ++ (u.path ++ query_text u)))
  unfolding str
  str-address u n = rw (pathquery_text u n) (simp append_assoc)

  str-path : (u : Url) → IsNormal u → str lib u ≡ before_path u ++ (u.path ++ query_text u)
  str-path u n = str-address u n ∙ simp append_assoc

  schema_part : (u : Url) → substr (str lib u) (0, length u.schema) ≡ some u.schema
  unfolding str
  schema_part u = substr-append [] u.schema _

  address_part :
      (u : Url)
      → IsNormal u
      → substr (str lib u) (length (before_address u), length u.address) ≡ some u.address
  address_part u n = rw (str-address u n) (substr-append (before_address u) u.address _)

  path_part :
      (u : Url)
      → IsNormal u
      → substr (str lib u) (length (before_path u), length u.path) ≡ some u.path
  path_part u n = rw (str-path u n) (substr-append (before_path u) u.path _)

  query_part :
      (u : Url)
      → IsNormal u
      → beq u.query [] ≡ false
      → substr (str lib u) (length (before_path u) + length u.path + 1, length u.query)
        ≡ some u.query
  unfolding query_text
  query_part u n e = rw (str-path u n, e) (substr_last (before_path u) u.path b'?' u.query)

  port_lem :
      (u : Url) → url_port u.schema (if port_shown u then some u.port else none) ≡ (written u).port
  unfolding url_port port_shown
  port_lem u = ground (arith, beq_iff u.schema (codes "http"), beq_iff u.schema (codes "https"))

  query_lem :
      (u : Url)
      → IsNormal u
      → (part_or [] (str lib u) (layout u).query ≡ some u.query)
        × ((if is_set (layout u).query then u.path ++ (codes "?" ++ u.query) else u.path)
            ≡ u.pathquery)
  unfolding part_or layout
  query_lem u n = elim (Bool-cases (beq u.query [])) [
    | inl empty ↦
        let nil : u.query ≡ [] = (beq_iff u.query []).0 empty in
        (rw empty (ap some (sym nil)), rw (n.whole, empty) refl)
    | inr full ↦ (rw full (query_part u n full), rw (n.whole, full) refl)
  ]

  schema_lem :
      (u : Url) → IsNormal u → lower_part (substr_at (str lib u) (layout u).schema) ≡ some u.schema
  unfolding layout lower_part
  schema_lem u n = ap lower_part (schema_part u) ∙ n.lower

  address_lem : (u : Url) → IsNormal u → substr_at (str lib u) (layout u).host ≡ some u.address
  unfolding layout
  address_lem u n = address_part u n

  path_lem : (u : Url) → IsNormal u → part_or (codes "/") (str lib u) (layout u).path ≡ some u.path
  unfolding layout part_or
  path_lem u n = path_part u n

  port_of_layout : (u : Url) → url_port u.schema (layout u).port ≡ (written u).port
  unfolding layout
  port_of_layout u = port_lem u

  found_parts : (u : Url) → (is_set (layout u).schema ≡ true) × (is_set (layout u).host ≡ true)
  unfolding layout
  found_parts u = (refl, refl)

  fields_lem : (u : Url) → IsNormal u → fields_url (str lib u) (layout u) ≡ some (ok (written u))
  unfolding fields_url
  fields_lem u n =
      rw
        (
          (found_parts u).0,
          (found_parts u).1,
          schema_lem u n,
          address_lem u n,
          path_lem u n,
          (query_lem u n).0,
        )
        (rw (port_of_layout u, (query_lem u n).1) refl)

  -- A normal URL that is written by `str` and read back, where http_parser finds the parts where they
  -- were written, is the same URL if the schema is http or https; for any other schema it is the same
  -- but for the port, which is 80 then.
  pub parse_url-str :
      (u : Url)
      → IsNormal u
      → lib.parse_fields false (str lib u) ≡ some (layout u)
      → parse_url lib (str lib u) ≡ some (ok (written u))
  unfolding parse_url
  parse_url-str u n h = rw (h, parse_url) (fields_lem u n)
