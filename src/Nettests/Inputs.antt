-- ===== src/Nettests/Inputs.antt =====
-- `process_input_filepaths_impl` of nettests/utils_impl.hpp. Reading a file, putting the country into
-- a path (regexp) and shuffling are parameters.
use libight.Prelude.{Bool, true, false, not, ◌&&◌, List, [], ◌∷◌, ◌++◌, map, if◌then◌else◌}
use libight.Prelude.Bytes.{Bytes}
use libight.Common.Error.{Error, ErrorOr, ok, err, no_error}
use libight.Ooni.Errors.{missing_required_input_file_error, cannot_read_any_input_file_error}
use libight.Http.Headers.{tolower}

-- What opening and reading a file gives: whether the stream is good, the lines that were read, and
-- whether the end was reached.
pub record InputFile : Type 0 where
  pub good : Bool
  pub lines : List Bytes
  pub eof : Bool

pub record Files : Type 0 where
  pub open_file : Bytes → InputFile
  pub replace_probe_cc : Bytes → Bytes → Bytes
  pub randomize_input : List Bytes → List Bytes

-- The calls of the two functions for errors.
pub data Report : Type 0 where
  open_error io_error : Bytes → Report

pub record State : Type 0 where
  pub inputs : List Bytes
  pub reports : List Report

read_file : Bytes → InputFile → State → State
read_file path f s =
    if not f.good
    then record s { reports = s.reports ++ open_error path ∷ [] }
    else if not f.eof
    then record s { inputs = s.inputs ++ f.lines; reports = s.reports ++ io_error path ∷ [] }
    else record s { inputs = s.inputs ++ f.lines }

-- The loop over the paths.
unfoldable pub read_files : Files → Bytes → List Bytes → State → State
unfolding read_file
read_files fs cc [] s = s
read_files fs cc (path ∷ paths) s =
    let path' = fs.replace_probe_cc path cc in
    read_files fs cc paths (read_file path' (fs.open_file path') s)

unfoldable pub shuffled : Files → ErrorOr Bool → State → State × Error
shuffled fs (err e) s = (s, e)
shuffled fs (ok false) s = (s, no_error)
shuffled fs (ok true) s = (record s { inputs = fs.randomize_input s.inputs }, no_error)

abbrev pub is_empty : List Bytes → Bool
is_empty [] = true
is_empty (x ∷ xs) = false

unfoldable pub with_files : Files → Bytes → List Bytes → ErrorOr Bool → State → State × Error
with_files fs probe_cc paths randomize s =
    let t = read_files fs (map tolower probe_cc) paths s in
    if is_empty t.inputs then (t, cannot_read_any_input_file_error) else shuffled fs randomize t

unfoldable pub process_input_filepaths :
    Files → Bool → List Bytes → Bytes → ErrorOr Bool → State → State × Error
process_input_filepaths fs needs_input paths probe_cc randomize s =
    if needs_input
    then (if is_empty paths && is_empty s.inputs
        then (s, missing_required_input_file_error)
        else with_files fs probe_cc paths randomize s)
    else (record s { inputs = [] ∷ [] }, no_error)
