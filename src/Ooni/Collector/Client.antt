-- ===== src/Ooni/Collector/Client.antt =====
-- The operations of ooni/collector_client_impl.hpp.
use libight.Prelude.{◌/◌, Bool, not, List, [], ◌∷◌, ◌++◌, Option, none, some, ◌==◌, if◌then◌else◌}
use libight.Prelude.Bytes.{Bytes, codes, beq}
use libight.Common.Error.{
  Error, ErrorOr, ok, err, is_error, same_code, no_error, file_eof_error, file_io_error,
  json_processing_error,
}
use libight.Http.Errors.{http_request_failed_error}
use libight.Net.Address.{Libraries}
use libight.Ooni.Errors.{cannot_open_report_error}
use libight.Ooni.Collector.{
  Json, Patterns, Settings, Exchange, M, ◌>>=◌, ◌>>◌, pure, fail, fail_if, or_fail, or_fault, close,
  closing, mandatory_re, valid_value, base_url, request_sendrecv, post_request, connected, fault,
}

-- What the client is built on, and its settings.
pub record Setup (J : Type 0) : Type 0 where
  pub json : Json J
  pub patterns : Patterns
  pub lib : Libraries
  pub settings : Settings

-- The lines of the report that end in a newline, and whether reading on fails before the end of the
-- file. What follows the last newline is at the end of the file, which is all the code looks at.
pub record Report : Type 0 where
  pub good : Bool
  pub lines : List Bytes
  pub broken : Bool

module _ {J : Type 0} (c : Setup J) where
  unfoldable pub check_values : List (Bytes × (Bytes → Bool)) → J → Error
  check_values [] entry = no_error
  check_values ((key, re) ∷ rest) entry =
      let e = valid_value key re (c.json.at_string key entry) in
      let later = check_values rest entry in if is_error e then e else later

  unfoldable pub valid_entry : J → Error
  unfolding check_values
  valid_entry entry = check_values (mandatory_re c.patterns) entry

  -- An empty body is no document.
  unfoldable pub on_response : Exchange → M (Option J)
  on_response e =
      if is_error e.failure
      then fail e.failure
      else if not (e.status_code / 100 == 2)
      then fail http_request_failed_error
      else if beq e.body []
      then pure none
      else or_fail json_processing_error (c.json.parse e.body) >>= λ reply. pure (some reply)

  unfoldable pub post : Bytes → Bytes → M (Option J)
  unfolding on_response
  post append_to_url body = do
    base ← base_url c.lib c.settings
    e ← request_sendrecv (post_request base append_to_url body)
    on_response e

  -- `connect_impl`; where it fails, there is no transport that has to be closed.
  unfoldable pub connect : M (Unit {0})
  connect = do _ ← base_url c.lib c.settings; connected

  unfoldable pub copied : J → List Bytes → List (Bytes × Option J)
  copied entry [] = []
  copied entry (key ∷ keys) = (key, c.json.get key entry) ∷ copied entry keys

  unfoldable pub hashes_of : Option J → Option J
  hashes_of none = none
  hashes_of (some hashes) =
      some (if not (c.json.is_null hashes) then hashes else c.json.empty_array)

  unfoldable pub assign : Bytes → Option J → Option (List (Bytes × J)) → Option (List (Bytes × J))
  assign key (some value) (some members) = some ((key, value) ∷ members)
  assign key _ _ = none

  unfoldable pub dump_object : Option (List (Bytes × J)) → Option Bytes
  dump_object none = none
  dump_object (some members) = c.json.dump (c.json.object members)

  unfoldable pub assign_all : List (Bytes × Option J) → Option (List (Bytes × J))
  unfolding assign
  assign_all [] = some []
  assign_all ((key, value) ∷ members) = assign key value (assign_all members)

  -- The request of `create_report_impl`.
  unfoldable pub create_body : J → Option Bytes
  unfolding copied hashes_of assign_all dump_object
  create_body entry = dump_object (
      assign_all (
        copied entry (
          codes "software_name"
          ∷ codes "software_version"
          ∷ codes "probe_asn"
          ∷ codes "probe_cc"
          ∷ codes "test_name"
          ∷ codes "test_version"
          ∷ codes "test_start_time"
          ∷ [])
        ++ ((codes "input_hashes", hashes_of (c.json.get (codes "input_hashes") entry))
              ∷ copied entry (codes "data_format_version" ∷ [])
            ++ (codes "format", some (c.json.string (codes "json"))) ∷ [])))

  unfoldable pub report_id_of : Option J → Option Bytes
  report_id_of none = none
  report_id_of (some reply) = c.json.at_string (codes "report_id") reply

  unfoldable pub create_report : J → M Bytes
  unfolding report_id_of
  create_report entry = do
    fail_if (valid_entry entry)
    body ← or_fault (create_body entry)
    reply ← post (codes "/report") body
    or_fail json_processing_error (report_id_of reply)

  -- The entry with the report ID, if it has none.
  unfoldable pub with_report_id : Bytes → J → Option J → Option J
  with_report_id report_id entry none = none
  with_report_id report_id entry (some id) = some (
      if c.json.is_null id
      then c.json.set (codes "report_id") (c.json.string report_id) entry
      else entry)

  unfoldable pub labelled : Bytes → J → Option J
  unfolding with_report_id
  labelled report_id entry = with_report_id report_id entry (c.json.get (codes "report_id") entry)

  -- The request of `update_report_impl`.
  unfoldable pub update_body : J → Option Bytes
  update_body entry = c.json.dump (
      c.json.object
        ((codes "format", c.json.string (codes "json")) ∷ (codes "content", entry) ∷ []))

  unfoldable pub update_report : Bytes → J → M (Unit {0})
  update_report report_id entry = do
    content ← or_fault (labelled report_id entry)
    fail_if (valid_entry content)
    body ← or_fault (update_body content)
    _ ← post (codes "/report/" ++ report_id) body
    pure tt

  unfoldable pub close_report : Bytes → M (Unit {0})
  close_report report_id = do
    _ ← post (codes "/report/" ++ (report_id ++ codes "/close")) []
    pure tt

  unfoldable pub connect_and_create_report : J → M Bytes
  connect_and_create_report entry = do
    connect
    report_id ← closing (create_report entry)
    close
    pure report_id

  unfoldable pub connect_and_update_report : Bytes → J → M (Unit {0})
  connect_and_update_report report_id entry = do
    connect
    closing (update_report report_id entry)
    close

  unfoldable pub connect_and_close_report : Bytes → M (Unit {0})
  connect_and_close_report report_id = do connect; closing (close_report report_id); close

  unfoldable pub parsed_entry : Option J → ErrorOr J
  parsed_entry none = err json_processing_error
  parsed_entry (some entry) = ok entry

  -- With the lines of the file that are left.
  unfoldable pub get_next_entry : Bool → List Bytes → ErrorOr J
  unfolding parsed_entry
  get_next_entry broken [] = err (if broken then file_io_error else file_eof_error)
  get_next_entry broken (line ∷ lines) = parsed_entry (c.json.parse line)

  -- `again` updates with the entry and fetches the next one.
  unfoldable pub on_next_entry : Bytes → (J → M (Unit {0})) → ErrorOr J → M (Unit {0})
  on_next_entry report_id again (ok entry) = again entry
  on_next_entry report_id again (err e) =
      if not (same_code e file_eof_error)
      then closing (fail e)
      else closing (close_report report_id) >> close

  unfoldable pub update_and_fetch_next : Bytes → Bool → List Bytes → J → M (Unit {0})
  update_and_fetch_next report_id broken [] entry =
      closing (update_report report_id entry)
      >> on_next_entry report_id (λ _. fault) (get_next_entry broken [])
  update_and_fetch_next report_id broken (line ∷ lines) entry =
      closing (update_report report_id entry)
      >> on_next_entry report_id (update_and_fetch_next report_id broken lines)
          (get_next_entry broken (line ∷ lines))

  unfoldable pub submit_first : Bool → List Bytes → ErrorOr J → M (Unit {0})
  submit_first broken lines (err e) = fail e
  submit_first broken lines (ok entry) = do
    connect
    report_id ← closing (create_report entry)
    update_and_fetch_next report_id broken lines entry

  abbrev pub after_first : List Bytes → List Bytes
  after_first [] = []
  after_first (line ∷ lines) = lines

  -- `submit_report_impl`, with the addresses of the collector in the settings.
  unfoldable pub submit_report : Report → M (Unit {0})
  submit_report file =
      if not file.good
      then fail cannot_open_report_error
      else submit_first file.broken (after_first file.lines) (get_next_entry file.broken file.lines)
