-- ===== src/Http/Redirect/Bounded.antt =====
-- Following redirects ends: a request is made at most once more than redirects are allowed.
use libight.Prelude.{
  ℕ, zero, suc, ◌+◌, ◌-◌, ◌≤◌, ◌<◌, ◌≡◌, refl, Bool, true, false, List, Option, none, some, arith,
  if◌then◌else◌,
}
use libight.Prelude.Bytes.{Bytes, codes}
use libight.Common.Error.{Error, ErrorOr, ok, err}
use libight.Http.Headers.{Header, headers_find_first}
use libight.Http.ResponseParser.{Response}
use libight.Http.Url.{Url}
use libight.Http.Redirect.{
  Next, calls_back, again, aborts, follow, on_response, Exchange, no_connection, exchanged,
  after_exchange, Ending, request, redirect,
}
use libight.Net.Address.{Libraries}

module _ (lib : Libraries) where
  follow-again :
      (max num : ℕ) (headers : List Header) (response : Response) (target : Option (ErrorOr Url))
      (u : Bytes) (hs : List Header)
      → follow lib max num headers response target ≡ again u hs
      → num < max
  unfolding follow
  follow-again max num headers response none u hs h = absurd (cc)
  follow-again max num headers response (some (err e)) u hs h = absurd (cc)
  follow-again max num headers response (some (ok url)) u hs h = ground arith

  inner_again :
      (a b : Bool) (e f : Error) (n : Next) (u : Bytes) (hs : List Header)
      → (if a then (if b then calls_back e else n) else calls_back f) ≡ again u hs
      → n ≡ again u hs
  inner_again true true e f n u hs h = absurd (cc)
  inner_again true false e f n u hs h = h
  inner_again false b e f n u hs h = absurd (cc)

  after_exchange-again :
      (max num : ℕ) (headers : List Header) (x : Exchange) (u : Bytes) (hs : List Header)
      → after_exchange lib max num headers x ≡ again u hs
      → num < max
  unfolding after_exchange on_response
  after_exchange-again max num headers (no_connection e) u hs h = absurd (cc)
  after_exchange-again max num headers (exchanged url (err e)) u hs h = absurd (cc)
  after_exchange-again max num headers (exchanged url (ok r)) u hs h =
      follow-again max num headers r
        (redirect lib url (headers_find_first r.headers (codes "Location"))) u hs
        (inner_again _ _ _ _ _ u hs h)

  abbrev pub IsWithin : ℕ → Ending → Type 0
  IsWithin max none = Unit
  IsWithin max (some (e, made)) = made ≤ max + 1

  -- Whatever the network does, and however the servers redirect: where the fuel exceeds the number
  -- of redirects that are left, the callback is called, or the program is aborted, and the
  -- number of requests made is at most one more than "http/max_redirects".
  pub request_ends :
      (network : ℕ → Bytes → List Header → Exchange) (max fuel num : ℕ) (url : Bytes)
      (headers : List Header)
      → num ≤ max
      → max - num < fuel
      → (ending : Ending) × (request lib network max fuel num url headers ≡ some ending)
        × IsWithin max ending
  unfolding request
  request_ends network max zero num url headers le lt = absurd (omega arith)
  request_ends network max (suc fuel) num url headers le lt =
      next_request (after_exchange lib max num headers (network num url headers)) refl
        (λ u hs below. request_ends network max fuel (num + 1) u hs (omega arith) (omega arith))
    where
      next_request :
          (n : Next)
          → after_exchange lib max num headers (network num url headers) ≡ n
          → ((u : Bytes) (hs : List Header)
              → num < max
              → (ending : Ending) × (request lib network max fuel (num + 1) u hs ≡ some ending)
                × IsWithin max ending)
          → (ending : Ending) × (request lib network max (suc fuel) num url headers ≡ some ending)
            × IsWithin max ending
      next_request (calls_back e) k rest = (some (e, num + 1), rw (k, request) refl, omega arith)
      next_request aborts k rest = (none, rw (k, request) refl, tt)
      next_request (again u hs) k rest =
          let below = after_exchange-again max num headers (network num url headers) u hs k in
          let (ending, r, w) = rest u hs below in (ending, rw (k, request) r, w)
