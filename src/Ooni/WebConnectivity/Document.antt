-- ===== src/Ooni/WebConnectivity/Document.antt =====
-- The data of ooni/web_connectivity.cpp: the JSON entry, the control's answer, and what the code calls.
-- The JSON entry is a record of the keys that this code reads and writes; `none` is null.
use libight.Prelude.{ℕ, Bool, true, false, ◌&&◌, ◌||◌, List, [], ◌∷◌, Option}
use libight.Prelude.Bytes.{Bytes, codes, beq}

-- What the code calls: `is_ip_addr`, the regular expressions for private addresses and for titles,
-- the database of autonomous systems, where `none` is a lookup that fails, and whether the
-- quotient of two lengths, as a `float`, is above 0.7.
pub record Lookups : Type 0 where
  pub is_ip_addr : Bytes → Bool
  pub is_private_ipv4_addr : Bytes → Bool
  pub lookup_asn : Bytes → Option Bytes
  pub extract_html_title : Bytes → Bytes
  pub above_factor : ℕ → ℕ → Bool

pub record TcpResult : Type 0 where
  pub ip : Bytes
  pub port : ℕ
  pub success : Bool
  pub blocked : Option Bool

pub record Control : Type 0 where
  pub http_failure : Option Bytes
  pub body_length : ℕ
  pub status_code : ℕ
  pub headers : List Bytes
  pub title : Bytes
  pub dns_failure : Option Bytes
  pub addrs : List Bytes
  -- the status by "ip:port"
  pub tcp_connect : List (Bytes × Bool)

-- "blocking" is null, false or a text.
pub data Blocking : Type 0 where
  undecided not_blocked : Blocking
  blocked_by : Bytes → Blocking

pub record Entry : Type 0 where
  pub control_failure : Option Bytes
  pub http_experiment_failure : Option Bytes
  pub dns_experiment_failure : Option Bytes
  pub dns_consistency : Option Bytes
  pub body_length_match : Option Bool
  pub headers_match : Option Bool
  pub title_match : Option Bool
  pub status_code_match : Option Bool
  pub tcp_connect : List TcpResult
  pub blocking : Blocking
  pub accessible : Option Bool

abbrev pub consistent : Bytes
consistent = codes "consistent"

abbrev pub inconsistent : Bytes
inconsistent = codes "inconsistent"

-- Sets of texts are lists, of which only the members matter.
unfoldable pub member : Bytes → List Bytes → Bool
member a [] = false
member a (x ∷ xs) = beq a x || member a xs

unfoldable pub intersects : List Bytes → List Bytes → Bool
unfolding member
intersects [] ys = false
intersects (x ∷ xs) ys = member x ys || intersects xs ys

unfoldable pub is_subset : List Bytes → List Bytes → Bool
unfolding member
is_subset [] ys = true
is_subset (x ∷ xs) ys = member x ys && is_subset xs ys
