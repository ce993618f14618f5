-- ===== src/Ooni/Collector/Operations.antt =====
-- What each operation of the client of the collector sends, whatever the collector answers.
use libight.Prelude.{
  ◌+◌, ◌/◌, ◌≡◌, refl, sym, false, not, List, [], ◌∷◌, ◌++◌, some, arith, inl, inr, Bool-cases,
  ◌==◌,
}
use libight.Prelude.Bytes.{Bytes, beq, codes}
use mathlib.Core.List.{append-nil}
use libight.Common.Error.{is_error, json_processing_error}
use libight.Http.Errors.{http_request_failed_error}
use libight.Http.Headers.{Header}
use libight.Ooni.Collector.{
  Request, Exchange, State, returns, post_request, take_exchange, base_url,
}
use libight.Ooni.Collector.Client.{
  Setup, valid_entry, on_response, post, connect, create_body, report_id_of, create_report,
  labelled, update_body, update_report, close_report,
}
use libight.Ooni.Collector.Outcomes.{
  or_fail-Sat, Sent, Balance, Sat, returned, failed, waiting, Failed, Sat-bind, Sat-weaken,
  Failed-here, fail_if-bind, or_fault-bind, or_fail-bind, Sent-nothing, Sent-append, if-Sat,
  Balance-after, Failed-after,
}

module _ {J : Type 0} (c : Setup J) (u : Bytes × List Header) where
  -- The request that adds an entry to a report.
  pub record IsUpdate (report_id : Bytes) (entry : J) (r : Request) : Type 0 where
    pub content : J
    pub body : Bytes
    pub is_labelled : labelled c report_id entry ≡ some content
    pub is_valid : is_error (valid_entry c content) ≡ false
    pub is_dumped : update_body c content ≡ some body
    pub is_request : r ≡ post_request u (codes "/report/" ++ report_id) body

  -- One request for each line, in order.
  abbrev pub IsUpdates : Bytes → List Bytes → List Request → Type 0
  IsUpdates report_id [] [] = Unit
  IsUpdates report_id (line ∷ lines) (r ∷ rs) =
      ((entry : J) × (c.json.parse line ≡ some entry) × IsUpdate report_id entry r)
      × IsUpdates report_id lines rs
  IsUpdates report_id _ _ = ⊥

  abbrev pub close_request : Bytes → Request
  close_request report_id = post_request u (codes "/report/" ++ (report_id ++ codes "/close")) []

  module _ (h : (s : State) → base_url c.lib c.settings s ≡ returns u s) where
    take_exchange-Sat :
        (r : Request) (es : List Exchange) (s : State)
        → Sat (λ e t. Sent s (r ∷ []) 0 0 t) (Failed s 0 0) (Balance s 0 0) (take_exchange r es s)
    take_exchange-Sat r [] s = waiting (record { made = omega arith; undone = omega arith })
    take_exchange-Sat r (e ∷ es) s =
        returned (record { requested = refl; connected = omega arith; ended = omega arith })

    on_response-Sat :
        (e : Exchange) (s : State)
        → Sat (λ _ t. Sent s [] 0 0 t) (Failed s 0 0) (Balance s 0 0) (on_response c e s)
    unfolding on_response
    on_response-Sat e s =
        if-Sat s (is_error e.failure) _ _ (λ real. failed (Failed-here s e.failure real))
          (λ _.
            if-Sat s (not (e.status_code / 100 == 2)) _ _
              (λ _. failed (Failed-here s http_request_failed_error refl))
              (λ _.
                if-Sat s (beq e.body []) _ _ (λ _. returned (Sent-nothing s))
                  (λ _.
                    or_fail-bind s json_processing_error (c.json.parse e.body) _
                      (Failed-here s json_processing_error refl)
                      (λ reply _. returned (Sent-nothing s)))))

    post-Sat :
        (append_to_url body : Bytes) (s : State)
        → Sat
            (λ _ t. Sent s (post_request u append_to_url body ∷ []) 0 0 t)
            (Failed s 0 0)
            (Balance s 0 0)
            (post c append_to_url body s)
    unfolding post
    post-Sat append_to_url body s = rw (h s) (
        Sat-bind (take_exchange-Sat (post_request u append_to_url body) s.exchanges s)
          (λ e t p.
            Sat-weaken (on_response-Sat e t) (λ _ v q. Sent-append s t v p q)
              (λ x v q. Failed-after v x p q) (λ v q. Balance-after v p q))
          (λ e t p. p) (λ t p. p))

    pub connect-Sat :
        (s : State) → Sat (λ _ t. Sent s [] 1 0 t) (Failed s 0 0) (Balance s 0 0) (connect c s)
    unfolding connect
    connect-Sat s = rw (h s) (elim (Bool-cases (is_error s.connect_error)) [
      | inl real ↦ rw real (failed (Failed-here s s.connect_error real))
      | inr fine ↦ rw fine (
          returned (record {
            requested = sym (append-nil s.requests);
            connected = refl;
            ended = omega arith;
          }))
    ])

    pub update_report-Sat :
        (report_id : Bytes) (entry : J) (s : State)
        → Sat
            (λ _ t. (r : Request) × IsUpdate report_id entry r × Sent s (r ∷ []) 0 0 t)
            (Failed s 0 0)
            (Balance s 0 0)
            (update_report c report_id entry s)
    unfolding update_report
    update_report-Sat report_id entry s =
        or_fault-bind s (labelled c report_id entry) _ (λ content lh.
          fail_if-bind s (valid_entry c content) _
            (λ real. Failed-here s (valid_entry c content) real)
            (λ vh. or_fault-bind s (update_body c content) _ (λ body bh.
              Sat-bind (post-Sat (codes "/report/" ++ report_id) body s)
                (λ _ t p. returned (
                  _,
                  record {
                    content = content;
                    body = body;
                    is_labelled = lh;
                    is_valid = vh;
                    is_dumped = bh;
                    is_request = refl;
                  },
                  p,
                ))
                (λ e t p. p) (λ t p. p))))

    pub create_report-Sat :
        (entry : J) (s : State)
        → Sat
            (λ _ t.
              (is_error (valid_entry c entry) ≡ false)
              × ((body : Bytes) × (create_body c entry ≡ some body)
                  × Sent s (post_request u (codes "/report") body ∷ []) 0 0 t))
            (Failed s 0 0)
            (Balance s 0 0)
            (create_report c entry s)
    unfolding create_report
    create_report-Sat entry s =
        fail_if-bind s (valid_entry c entry) _ (λ real. Failed-here s (valid_entry c entry) real)
          (λ vh. or_fault-bind s (create_body c entry) _ (λ body bh.
            Sat-bind (post-Sat (codes "/report") body s)
              (λ reply t p.
                or_fail-Sat t json_processing_error (report_id_of c reply)
                  (Failed-after t json_processing_error p
                    (Failed-here t json_processing_error refl))
                  (λ _ _. (vh, (body, bh, p))))
              (λ e t p. p) (λ t p. p)))

    pub close_report-Sat :
        (report_id : Bytes) (s : State)
        → Sat
            (λ _ t. Sent s (close_request report_id ∷ []) 0 0 t)
            (Failed s 0 0)
            (Balance s 0 0)
            (close_report c report_id s)
    unfolding close_report
    close_report-Sat report_id s =
        Sat-bind (post-Sat (codes "/report/" ++ (report_id ++ codes "/close")) [] s)
          (λ _ t p. returned p) (λ e t p. p) (λ t p. p)

    pub close-Sent :
        {s t : State} {rs : List Request}
        → Sent s rs 0 0 t
        → Sent s rs 0 1 (record t { closed = t.closed + 1 })
    close-Sent p = record {
      requested = p.requested;
      connected = p.connected;
      ended = omega (arith, p.ended);
    }
