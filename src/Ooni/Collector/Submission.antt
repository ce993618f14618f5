-- ===== src/Ooni/Collector/Submission.antt =====
-- What `submit_report` does with a report, whatever the collector answers.
use libight.Prelude.{
  ◌+◌, ◌≡◌, refl, Bool, true, false, not, List, [], ◌∷◌, ◌++◌, Option, none, some, arith,
}
use libight.Prelude.Bytes.{Bytes, codes}
use libight.Common.Error.{Error, ok, is_error}
use libight.Http.Headers.{Header}
use libight.Ooni.Collector.{Request, State, Outcome, returns, M, post_request, base_url, fault}
use libight.Ooni.Collector.Client.{
  Setup, Report, valid_entry, create_body, parsed_entry, get_next_entry, on_next_entry,
  update_and_fetch_next, submit_first, after_first, submit_report,
}
use libight.Ooni.Collector.Outcomes.{
  Sent, Balance, Sat, returned, failed, Failed, Sat-bind, Sat-weaken, close_failed-Sat, Sent-append,
  if-Sat, Balance-after, Failed-after,
}
use libight.Ooni.Collector.Operations.{
  IsUpdate, IsUpdates, close_request, connect-Sat, update_report-Sat, create_report-Sat,
  close_report-Sat, close-Sent,
}

module _ {J : Type 0} (c : Setup J) (u : Bytes × List Header)
    (h : (s : State) → base_url c.lib c.settings s ≡ returns u s) where
  -- The end of the file, where reading it failed if `broken`.
  at_end-Sat :
      (report_id : Bytes) (broken : Bool) (again : J → M (Unit {0})) (s : State)
      → Sat
          (λ _ t. (broken ≡ false) × Sent s (close_request c u report_id ∷ []) 0 1 t)
          (Failed s 0 1)
          (Balance s 0 0)
          (on_next_entry c report_id again (get_next_entry c broken []) s)
  unfolding on_next_entry get_next_entry
  at_end-Sat report_id true again s = failed (refl, record { made = omega arith; undone = refl })
  at_end-Sat report_id false again s =
      Sat-bind (close_failed-Sat s 0 (close_report-Sat c u h report_id s))
        (λ _ t p. returned (refl, close-Sent c u h p)) (λ e t p. p) (λ t p. p)

  -- What an update adds to what comes after it.
  after_update :
      {A : Type 0} {P Q : A → State → Type 0} (s t : State) (r : Request) {o : Outcome A}
      → Sent s (r ∷ []) 0 0 t
      → Sat P (Failed t 0 1) (Balance t 0 0) o
      → ((a : A) (v : State) → P a v → Q a v)
      → Sat Q (Failed s 0 1) (Balance s 0 0) o
  after_update s t r p q k =
      Sat-weaken q k (λ e v w. Failed-after v e p w) (λ v w. Balance-after v p w)

  -- What the loop sends from an entry on, when it succeeds.
  pub record Finished (report_id : Bytes) (broken : Bool) (lines : List Bytes) (entry : J)
      (s t : State) : Type 0 where
    pub whole : broken ≡ false
    pub update : Request
    pub updates : List Request
    pub updated : IsUpdate c u report_id entry update
    pub all_updated : IsUpdates c u report_id lines updates
    pub sent : Sent s (update ∷ updates ++ close_request c u report_id ∷ []) 0 1 t

  on_next_entry-Sat :
      (report_id : Bytes) (broken : Bool) (line : Bytes) (lines : List Bytes)
      → ((entry : J) (t : State)
          → Sat
              (λ _ v. Finished report_id broken lines entry t v)
              (Failed t 0 1)
              (Balance t 0 0)
              (update_and_fetch_next c report_id broken lines entry t))
      → (o : Option J) → c.json.parse line ≡ o
      → (t : State)
      → Sat
          (λ _ v.
            (entry : J) × (c.json.parse line ≡ some entry)
            × Finished report_id broken lines entry t v)
          (Failed t 0 1)
          (Balance t 0 0)
          (on_next_entry c report_id
            (update_and_fetch_next c report_id broken lines)
            (get_next_entry c broken (line ∷ lines))
            t)
  unfolding on_next_entry get_next_entry parsed_entry
  on_next_entry-Sat report_id broken line lines again none e t =
      rw e (failed (refl, record { made = omega arith; undone = refl }))
  on_next_entry-Sat report_id broken line lines again (some entry) e t =
      rw e (Sat-weaken (again entry t) (λ _ v q. (entry, refl, q)) (λ e v q. q) (λ v q. q))

  update_and_fetch_next-Sat :
      (report_id : Bytes) (broken : Bool) (lines : List Bytes) (entry : J) (s : State)
      → Sat
          (λ _ t. Finished report_id broken lines entry s t)
          (Failed s 0 1)
          (Balance s 0 0)
          (update_and_fetch_next c report_id broken lines entry s)
  unfolding update_and_fetch_next
  update_and_fetch_next-Sat report_id broken [] entry s =
      Sat-bind (close_failed-Sat s 0 (update_report-Sat c u h report_id entry s))
        (λ _ t (r, i, p).
          after_update s t r p (at_end-Sat report_id broken (λ _. fault) t) (λ _ v q. record {
            whole = q.0;
            update = r;
            updates = [];
            updated = i;
            all_updated = tt;
            sent = Sent-append s t v p q.1;
          }))
        (λ e t p. p) (λ t p. p)
  update_and_fetch_next-Sat report_id broken (line ∷ lines) entry s =
      Sat-bind (close_failed-Sat s 0 (update_report-Sat c u h report_id entry s))
        (λ _ t (r, i, p).
          after_update s t r p
            (on_next_entry-Sat report_id broken line lines
              (update_and_fetch_next-Sat report_id broken lines) (c.json.parse line) refl t)
            (λ _ v (next_entry, e, q). record {
              whole = q.whole;
              update = r;
              updates = q.update ∷ q.updates;
              updated = i;
              all_updated = ((next_entry, e, q.updated), q.all_updated);
              sent = Sent-append s t v p q.sent;
            }))
        (λ e t p. p) (λ t p. p)

  -- What was submitted when a report is submitted with success.
  pub record Submitted (file : Report) (s t : State) : Type 0 where
    pub first : J
    pub report_id : Bytes
    pub create : Bytes
    pub updates : List Request
    pub whole : file.broken ≡ false
    pub parses : get_next_entry c file.broken file.lines ≡ ok first
    pub is_valid : is_error (valid_entry c first) ≡ false
    pub is_dumped : create_body c first ≡ some create
    pub all_updated : IsUpdates c u report_id file.lines updates
    pub sent :
        Sent s
          (post_request u (codes "/report") create ∷ updates ++ close_request c u report_id ∷ [])
          1
          1
          t

  -- A real error, when each transport was closed that was connected.
  abbrev pub Settled : State → Error → State → Type 0
  Settled s e t = (is_error e ≡ true) × (t.connections + s.closed ≡ s.connections + t.closed)

  -- Nothing is closed while an answer is awaited.
  abbrev pub Pending : State → State → Type 0
  Pending s t = t.closed ≡ s.closed

  Settled-after : {s t v : State} (e : Error) → Sent s [] 1 0 t → Failed t 0 1 e v → Settled s e v
  Settled-after e p q = (q.0, omega (arith, p.connected, p.ended, q.1.made, q.1.undone))

  submit_report-first :
      (good broken : Bool) (line : Bytes) (lines : List Bytes) (s : State) (o : Option J)
      → c.json.parse line ≡ o
      → Sat
          (λ _ t. Submitted (record { good = good; lines = line ∷ lines; broken = broken }) s t)
          (Settled s)
          (Pending s)
          (submit_first c broken lines (parsed_entry c o) s)
  unfolding submit_first parsed_entry
  submit_report-first good broken line lines s none e = failed (refl, omega arith)
  submit_report-first good broken line lines s (some first) e =
      Sat-bind (connect-Sat c u h s)
        (λ _ t p.
          Sat-bind (close_failed-Sat t 0 (create_report-Sat c u h first t))
            (λ report_id v (vh, (create, dh, q)).
              Sat-weaken (update_and_fetch_next-Sat report_id broken lines first v)
                (λ _ w r. record {
                  first = first;
                  report_id = report_id;
                  create = create;
                  updates = r.update ∷ r.updates;
                  whole = r.whole;
                  parses = unfold get_next_entry parsed_entry in rw e refl;
                  is_valid = vh;
                  is_dumped = dh;
                  all_updated = ((first, e, r.updated), r.all_updated);
                  sent = Sent-append s t w p (Sent-append t v w q r.sent);
                })
                (λ x w r. Settled-after x p (Failed-after w x q r))
                (λ w r. omega (arith, p.ended, q.ended, r.undone)))
            (λ x v q. Settled-after x p q) (λ v q. omega (arith, p.ended, q.undone)))
        (λ x t p. (p.0, omega (arith, p.1.made, p.1.undone))) (λ t p. omega (arith, p.undone))

  by_lines :
      (good broken : Bool) (lines : List Bytes) (s : State)
      → Sat
          (λ _ t. Submitted (record { good = good; lines = lines; broken = broken }) s t)
          (Settled s)
          (Pending s)
          (submit_first c broken (after_first c lines) (get_next_entry c broken lines) s)
  by_lines good true [] s = unfold submit_first get_next_entry in failed {t = s} (refl, omega arith)
  by_lines good false [] s =
      unfold submit_first get_next_entry in failed {t = s} (refl, omega arith)
  by_lines good broken (line ∷ lines) s =
      unfold get_next_entry in submit_report-first good broken line lines s (c.json.parse line) refl

  -- Whatever the collector answers: a report is submitted with success only if it was read to its end,
  -- its lines are entries and what was sent is the request that creates the report from the first
  -- one, a request for each line in order, and the one that closes the report, over one transport,
  -- which was closed. An error is a real one, and then each transport was closed that was connected.
  pub submit_report_lem :
      (file : Report) (s : State)
      → Sat (λ _ t. Submitted file s t) (Settled s) (Pending s) (submit_report c file s)
  unfolding submit_report
  submit_report_lem file s =
      if-Sat s (not file.good) _ _ (λ _. failed (refl, omega arith))
        (λ _. by_lines file.good file.broken file.lines s)
