-- ===== src/Audit/Reader/Lines.antt =====
-- What is read back of a log of whole lines.
use yomotsusaka.Prelude.{
  Text, true, false, not, Option, none, some, List, [], ◌∷◌, ◌++◌, all, and_split, ◌≡◌, refl, All,
  ok, arith,
}
use yomotsusaka.Boundary.Resolver.{is_blank}
use yomotsusaka.Snapshot.{strip}
use yomotsusaka.Audit.{AuditRecord}
use yomotsusaka.Audit.Reader.{is_line_break, split_lines, add_record, read_lines, read_records}

abbrev pub log_text : List Text → Text
log_text [] = []
log_text (line ∷ lines) = line ++ b'\n' ∷ log_text lines

first_line :
    (t rest : Text)
    → all (λ c. not (is_line_break c)) t ≡ true
    → split_lines (t ++ b'\n' ∷ rest) ≡ t ∷ split_lines rest
unfolding split_lines
first_line [] rest h = refl
first_line (c ∷ t) rest h =
    let (here, later) = and_split (not (is_line_break c)) _ h in
    let inside : is_line_break c ≡ false = ground (arith, here) in
    rw (inside, split_lines) (rw (first_line t rest later) refl)

module _ {Json : Type 0} (loads : Text → Option Json)
    (model_validate : Json → Option AuditRecord) where
  -- A line of JSON that is not blank, has no space around it and no line break inside.
  pub record IsLogLine (t : Text) : Type 0 where
    pub not_blank : is_blank t ≡ false
    pub stripped : strip t ≡ t
    pub unbroken : all (λ c. not (is_line_break c)) t ≡ true
    pub data_ : Json
    pub loaded : loads t ≡ some data_

  abbrev pub keep_record : Option AuditRecord → List AuditRecord → List AuditRecord
  keep_record none records = records
  keep_record (some record_) records = record_ ∷ records

  -- The lines that are records of the schema, in order.
  abbrev pub records_of : (lines : List Text) → All IsLogLine lines → List AuditRecord
  records_of [] h = []
  records_of (line ∷ lines) h = keep_record (model_validate h.0.data_) (records_of lines h.1)

  add_record-keep_record :
      (o : Option AuditRecord) (records : List AuditRecord)
      → add_record o (ok records) ≡ ok (keep_record o records)
  add_record-keep_record none records = refl
  add_record-keep_record (some record_) records = refl

  read_lines-log_text :
      (lines : List Text) (h : All IsLogLine lines)
      → read_lines loads model_validate (split_lines (log_text lines)) ≡ ok (records_of lines h)
  unfolding read_lines
  read_lines-log_text [] h = unfold split_lines in refl
  read_lines-log_text (line ∷ lines) h =
      rw
        (
          first_line line (log_text lines) h.0.unbroken,
          read_lines,
          h.0.not_blank,
          h.0.stripped,
          h.0.loaded,
        )
        (rw (read_lines-log_text lines h.1) (add_record-keep_record (model_validate h.0.data_) _))

  -- A log of which each line is JSON, not blank, without space around it and without a line break
  -- inside, is read without an error, and what is read are the lines that are records, in order; the
  -- lines of another schema are passed over.
  pub read_records-log_text :
      (lines : List Text) (h : All IsLogLine lines)
      → read_records loads model_validate (some (log_text lines)) ≡ ok (records_of lines h)
  unfolding read_records
  read_records-log_text lines h = read_lines-log_text lines h
