-- ===== src/Audit.antt =====
-- The audit records of the execution gateway (src/yomotsusaka/audit.py). `dump` stands for
-- `AuditRecord.model_dump_json`, for the time stamp of the call; the two reserved fields, which are
-- always `None`, are left out. The log is the list of its lines with their records, newest first.
pub mod Reader
use yomotsusaka.Prelude.{Text, Bool, true, false, Option, List, [], ◌∷◌, Result, ok, err}
use yomotsusaka.Schemas.{PrivateDictEntry}
use yomotsusaka.Scrubber.{ScrubError, scrub_stream}
use yomotsusaka.Vault.{Disk}

pub record AuditRecord : Type 0 where
  pub request_id : Text
  pub template_name : Text
  pub caller_scope : Text
  pub purpose : Text
  pub locator : Text
  pub outcome : Text
  pub artifact_locators : List Text
  pub resolver_reason : Option Text
  pub detail : Option Text

-- What a call does that can be seen from outside.
pub data Event : Type 0 where
  appended : AuditRecord → Text → Event
  template_ran : Text → Event

-- The newest event stands first. `faults` tells of the coming appends to the log which ones raise
-- `OSError`; behind its end none does.
pub record Log : Type 0 where
  pub disk : Disk
  pub events : List Event
  pub faults : List Bool

abbrev pub append_line : AuditRecord → Text → List Bool → Log → Bool × Log
append_line record_ line [] log = (true, record log { events = appended record_ line ∷ log.events })
append_line record_ line (true ∷ faults) log = (false, record log { faults = faults })
append_line record_ line (false ∷ faults) log =
    (true, record log { events = appended record_ line ∷ log.events; faults = faults })

-- The append behind the scrubber's check; `ScrubError` becomes `AuditError`.
abbrev pub append_checked : AuditRecord → Result ScrubError Text → Log → Bool × Log
append_checked record_ (err cause) log = (false, log)
append_checked record_ (ok line) log = append_line record_ line log.faults log

-- `write_record`: whether it returns, and does not raise `AuditError` or `OSError`.
unfoldable pub write_record :
    (AuditRecord → Text) → AuditRecord → List PrivateDictEntry → Log → Bool × Log
unfolding scrub_stream
write_record dump record_ private_dict log =
    append_checked record_ (scrub_stream (dump record_) private_dict) log
