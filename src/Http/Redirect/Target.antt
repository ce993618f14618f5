-- ===== src/Http/Redirect/Target.antt =====
-- Where a redirect to an absolute path leads.
use libight.Prelude.{◌≡◌, refl, ap, ◌∙◌, true, false, some}
use libight.Prelude.Bytes.{codes}
use libight.Common.Error.{ok}
use libight.Common.Text.{startswith}
use libight.Http.Url.{Url, parse_url, str, port_shown}
use libight.Http.Url.RoundTrip.{IsNormal, written, layout, parse_url-str}
use libight.Http.Redirect.{redirect, redirect_text}
use libight.Net.Address.{Libraries}

module _ (lib : Libraries) where
  same_text :
      (u v : Url)
      → v.schema ≡ u.schema
      → v.address ≡ u.address
      → v.port ≡ u.port
      → str lib (record u { pathquery = v.pathquery }) ≡ str lib v
  unfolding str port_shown
  same_text u v s a p = rw (s, a, p) refl

  -- A redirect to a path that starts with one slash leads, where http_parser finds its parts, to the
  -- URL with that path and query at the schema and address of the original, and at its port if the
  -- schema is http or https. For any other schema the port is lost: it is 80 then.
  pub redirect_path :
      (u v : Url)
      → v.schema ≡ u.schema
      → v.address ≡ u.address
      → v.port ≡ u.port
      → IsNormal v
      → lib.parse_fields false (str lib v) ≡ some (layout lib v)
      → startswith v.pathquery (codes "//") ≡ false
      → startswith v.pathquery (codes "/") ≡ true
      → redirect lib u v.pathquery ≡ some (ok (written v))
  unfolding redirect redirect_text
  redirect_path u v s a p n h two one =
      rw (two, one) (ap (parse_url lib) (same_text u v s a p) ∙ parse_url-str lib v n h)
