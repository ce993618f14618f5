-- ===== src/Ooni/Collector/Success.antt =====
-- A report is submitted if the collector answers as it should.
use libight.Prelude.{◌+◌, ◌/◌, ◌≡◌, false, List, [], ◌∷◌, ◌++◌, some}
use libight.Prelude.Bytes.{Bytes, beq}
use libight.Common.Error.{is_error}
use libight.Http.Headers.{Header}
use libight.Ooni.Collector.{Request, Exchange, State, returns, base_url}
use libight.Ooni.Collector.Client.{Setup, report_id_of}

-- An answer that is no error and has no body.
abbrev pub IsFine : Exchange → Type 0
IsFine e = (is_error e.failure ≡ false) × (e.status_code / 100 ≡ 2) × (e.body ≡ [])

-- The state when a request was answered.
abbrev pub sent_one : State → Request → List Exchange → State
sent_one s r more = record s { exchanges = more; requests = s.requests ++ r ∷ [] }

module _ {J : Type 0} (c : Setup J) (u : Bytes × List Header) where
  -- The answer to the request that creates a report.
  pub record Creates (e : Exchange) (report_id : Bytes) : Type 0 where
    pub reply : J
    pub is_fine : is_error e.failure ≡ false
    pub is_success : e.status_code / 100 ≡ 2
    pub has_body : beq e.body [] ≡ false
    pub parses : c.json.parse e.body ≡ some reply
    pub has_id : report_id_of c (some reply) ≡ some report_id

  module _ (h : (s : State) → base_url c.lib c.settings s ≡ returns u s) where
    -- The state when the loop is done.
    abbrev pub finished : State → List Request → List Exchange → State
    finished s qs more = record s {
      exchanges = more;
      requests = s.requests ++ qs;
      closed = s.closed + 1;
    }
