-- ===== src/Audit/Reader.antt =====
-- `read_records` (src/yomotsusaka/audit.py). `loads` stands for `json.loads`, `model_validate` for pydantic's
-- reading of a value as a record. `str.splitlines` takes a carriage return with a line feed behind it as one
-- end; the model takes them as two, with a blank line between them, which is skipped.
pub mod Lines
use yomotsusaka.Prelude.{
  ℕ, Text, Bool, true, false, Option, none, some, List, [], ◌∷◌, leb, ◌==◌, ◌&&◌, ◌||◌, Result, ok,
  err,
}
use yomotsusaka.Boundary.Resolver.{is_blank}
use yomotsusaka.Snapshot.{add_to_line, strip}
use yomotsusaka.Audit.{AuditRecord}

-- The ends of a line for `str.splitlines`.
abbrev pub is_line_break : ℕ → Bool
is_line_break c =
    leb 10 c && leb c 13 || (leb 28 c && leb c 30 || (c == 133 || (c == 8232 || c == 8233)))

unfoldable pub split_lines : Text → List Text
split_lines [] = []
split_lines (c ∷ t) = elim (is_line_break c) [
  | true ↦ [] ∷ split_lines t
  | false ↦ add_to_line c (split_lines t)
]

-- The log holds a line that is not valid JSON.
pub data ReadError : Type 0 where
  invalid_line : ReadError

abbrev pub add_record :
    Option AuditRecord → Result ReadError (List AuditRecord) → Result ReadError (List AuditRecord)
add_record (some record_) (ok records) = ok (record_ ∷ records)
add_record _ rest = rest

module _ {Json : Type 0} (loads : Text → Option Json)
    (model_validate : Json → Option AuditRecord) where
  abbrev pub add_line :
      Option Json → Result ReadError (List AuditRecord) → Result ReadError (List AuditRecord)
  add_line none rest = err invalid_line
  add_line (some data_) rest = add_record (model_validate data_) rest

  -- The loop over the lines.
  unfoldable pub read_lines : List Text → Result ReadError (List AuditRecord)
  unfolding is_blank strip
  read_lines [] = ok []
  read_lines (raw ∷ lines) =
      let rest = read_lines lines in
      elim (is_blank raw) [ true ↦ rest | false ↦ add_line (loads (strip raw)) rest ]

  -- `read_records`, of the content of the log, if there is one
  unfoldable pub read_records : Option Text → Result ReadError (List AuditRecord)
  unfolding read_lines split_lines
  read_records none = ok []
  read_records (some content) = read_lines (split_lines content)
