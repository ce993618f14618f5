-- ===== src/Neubot/Dash/Ends.antt =====
-- What a measurement leaves, whatever the network does.
use libight.Prelude.{
  ℕ, zero, suc, ◌+◌, ◌≤◌, ◌≡◌, refl, ◌⊎◌, inl, inr, List, [], ◌∷◌, Option, none, some, arith, All,
  Bool-cases,
}
use libight.Prelude.Bytes.{Bytes, codes}
use libight.Common.Error.{Error, ErrorOr, ok, err, is_error}
use libight.Neubot.Dash.{
  Settings, Options, options_of, Receiver, Network, Ending, generic_error_with,
}
use libight.Neubot.Dash.Run.{
  Done, after_run, run_with, run, Verdict, refused, granted, choked, on_negotiation,
  after_negotiation, negotiate_loop, negotiate_all, max_negotiations, sanitize_entry,
  after_measuring, after_negotiating, negotiate_with,
}

-- No address of the user, and each transport closed that was connected.
abbrev pub IsPrivate : Receiver → Type 0
IsPrivate r = (r.internal_address ≡ codes "127.0.0.1") × (r.real_address ≡ codes "127.0.0.1")

abbrev pub IsClean : Option Done → Type 0
IsClean none = Unit
IsClean (some d) = All IsPrivate d.receiver_data × (d.closed ≡ d.connections)

abbrev pub IsClosed : Option Done → Type 0
IsClosed none = Unit
IsClosed (some d) = d.closed ≡ d.connections

sanitize_entry-IsPrivate : (entry : List Receiver) → All IsPrivate (sanitize_entry entry)
unfolding sanitize_entry
sanitize_entry-IsPrivate [] = tt
sanitize_entry-IsPrivate (r ∷ entry) = ((refl, refl), sanitize_entry-IsPrivate entry)

after_run-IsClosed : (e : Ending) → IsClosed (after_run e)
unfolding after_run
after_run-IsClosed none = tt
after_run-IsClosed (some (failure, entry)) = refl

run_with-IsClosed :
    (network : Network) (real_address : Bytes) (o : ErrorOr Options)
    → IsClosed (run_with network real_address o)
unfolding run_with
run_with-IsClosed network real_address (err e) = refl
run_with-IsClosed network real_address (ok o) = after_run-IsClosed _

run-IsClosed :
    (network : Network) (settings : Settings) (real_address : Bytes)
    → IsClosed (run network settings real_address)
unfolding run
run-IsClosed network settings real_address =
    elim (Bool-cases (is_error network.run_connect_error)) [
      | inl failed ↦ rw failed refl
      | inr fine ↦ rw fine (run_with-IsClosed network real_address (options_of settings))
    ]

after_measuring-IsClean :
    (network : Network) (d : Option Done) → IsClosed d → IsClean (after_measuring network d)
unfolding after_measuring
after_measuring-IsClean network none h = tt
after_measuring-IsClean network (some d) h =
    (sanitize_entry-IsPrivate d.receiver_data, omega (arith, h))

after_negotiating-IsClean :
    (network : Network) (settings : Settings) (r : ErrorOr (Bytes × Bytes))
    → IsClean (after_negotiating network settings r)
unfolding after_negotiating
after_negotiating-IsClean network settings (err e) = (tt, refl)
after_negotiating-IsClean network settings (ok (auth, real_address)) =
    after_measuring-IsClean network _ (run-IsClosed network settings real_address)

-- Whatever the network does: when the measurement is done, what was received holds no address of the
-- user, and each transport was closed that was connected.
pub negotiate_with-IsClean :
    (network : Network) (settings : Settings) → IsClean (negotiate_with network settings)
unfolding negotiate_with
negotiate_with-IsClean network settings = elim (Bool-cases (is_error network.connect_error)) [
  | inl failed ↦ rw failed (tt, refl)
  | inr fine ↦ rw fine (after_negotiating-IsClean network settings (negotiate_all network).0)
]

-- So many negotiations from the first one on were put off, the last one with this token.
pub data Choked (network : Network) : ℕ → Bytes → Type 0 where
  none_yet : Choked network 0 []
  one_more :
      {n : ℕ} {token next : Bytes}
      → Choked network n token
      → on_negotiation network (network.negotiation n token) ≡ choked next
      → Choked network (n + 1) next

-- How the negotiations end, and with how many requests.
abbrev pub Negotiated : Network → ErrorOr (Bytes × Bytes) × ℕ → Type 0
Negotiated network r =
    ((n : ℕ) × (token : Bytes) × (e : Error) × Choked network n token
      × (n ≤ max_negotiations)
      × (on_negotiation network (network.negotiation n token) ≡ refused e)
      × (r ≡ (err e, n + 1)))
    ⊎ (((n : ℕ) × (token auth real_address : Bytes) × Choked network n token
          × (n ≤ max_negotiations)
          × (on_negotiation network (network.negotiation n token) ≡ granted auth real_address)
          × (r ≡ (ok (auth, real_address), n + 1)))
        ⊎ ((token : Bytes) × Choked network (max_negotiations + 1) token
            × (r ≡ (
              err (generic_error_with (codes "too_many_negotiations")),
              max_negotiations + 1,
            ))))

module _ (network : Network) where
  negotiate_loop-Negotiated :
      (left k : ℕ) (token : Bytes)
      → Choked network k token
      → left + k ≡ max_negotiations + 1
      → Negotiated network
          ((negotiate_loop network left k token).0, k + (negotiate_loop network left k token).1)
  unfolding negotiate_loop
  negotiate_loop-Negotiated zero k token c h =
      let all : k ≡ max_negotiations + 1 = omega (arith, h) in
      inr (inr (token, rw all at (c), rw all refl))
  negotiate_loop-Negotiated (suc left) k token c h =
      on_verdict (on_negotiation network (network.negotiation k token)) refl
        (λ next d. negotiate_loop-Negotiated left (k + 1) next d (omega (arith, h)))
    where
      on_verdict :
          (v : Verdict)
          → on_negotiation network (network.negotiation k token) ≡ v
          → ((next : Bytes)
              → Choked network (k + 1) next
              → Negotiated network (
                (negotiate_loop network left (k + 1) next).0,
                k + 1 + (negotiate_loop network left (k + 1) next).1,
              ))
          → Negotiated network (
            (after_negotiation v (negotiate_loop network left (k + 1))).0,
            k + (after_negotiation v (negotiate_loop network left (k + 1))).1,
          )
      on_verdict (refused e) q again =
          unfold after_negotiation in inl (k, token, e, c, omega (arith, h), q, refl)
      on_verdict (granted auth real_address) q again =
          unfold after_negotiation in
          inr (inl (k, token, auth, real_address, c, omega (arith, h), q, refl))
      on_verdict (choked next) q again =
          unfold after_negotiation in
          let moved : k + ((negotiate_loop network left (k + 1) next).1 + 1)
              ≡ k + 1 + (negotiate_loop network left (k + 1) next).1 =
            omega arith in
          rw moved (again next (one_more c q))

  -- The negotiations end: a prefix of them is put off, each with the token of the one before, and
  -- then either the next one is refused or granted, which is the result, or 513 requests were made
  -- and the error is that these are too many.
  pub negotiate_all-Negotiated : Negotiated network (negotiate_all network)
  unfolding negotiate_all
  negotiate_all-Negotiated =
      let all : 0 + (negotiate_loop network (max_negotiations + 1) 0 []).1
          ≡ (negotiate_loop network (max_negotiations + 1) 0 []).1 =
        omega arith in
      rw all at (negotiate_loop-Negotiated (max_negotiations + 1) 0 [] none_yet (omega arith))
