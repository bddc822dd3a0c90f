-- ===== src/Execution/Responses.antt =====
-- What a call of the dispatcher records, shows and lets run.
use yomotsusaka.Prelude.{
  Text, codes, Bool, true, false, Option, none, some, List, [], ◌∷◌, ◌≡◌, ◌⊎◌, inl, inr, refl,
  Result, ok, err,
}
use yomotsusaka.Schemas.{PrivateDictEntry}
use yomotsusaka.Scrubber.{ScrubError, scrub_stream}
use yomotsusaka.Scrubber.Laws.{scrub_stream_clean}
use yomotsusaka.Scrubber.Paths.{NoVaultPath}
use yomotsusaka.Audit.{AuditRecord, Event, appended, Log, append_line, append_checked, write_record}
use yomotsusaka.Execution.{
  ExecutionScope, ExecutionFailureReason, audit_write_failed, reason_value, Status, accepted,
  failed, ExecutionResponse, Denial,
}
use yomotsusaka.Execution.Dispatch.{denial_record, after_record, emit_failure}

-- What an append comes to: a line that the scrubber lets pass, or nothing.
pub data Written (dump : AuditRecord → Text) (r : AuditRecord)
    (private_dict : List PrivateDictEntry) (log : Log) : Bool × Log → Type 0 where
  done :
      (line : Text) (faults : List Bool)
      → scrub_stream (dump r) private_dict ≡ ok line
      → Written dump r private_dict log
          (true, record { disk = log.disk; events = appended r line ∷ log.events; faults = faults })
  not_done :
      (faults : List Bool)
      → Written dump r private_dict log
          (false, record { disk = log.disk; events = log.events; faults = faults })

module _ (dump : AuditRecord → Text) (r : AuditRecord) (private_dict : List PrivateDictEntry)
    (log : Log) where
  append_line-Written :
      (line : Text) (faults : List Bool)
      → scrub_stream (dump r) private_dict ≡ ok line
      → log.faults ≡ faults
      → Written dump r private_dict log (append_line r line faults log)
  append_line-Written line [] e f = done line log.faults e
  append_line-Written line (true ∷ faults) e f = not_done faults
  append_line-Written line (false ∷ faults) e f = done line faults e

  append_checked-Written :
      (checked : Result ScrubError Text)
      → scrub_stream (dump r) private_dict ≡ checked
      → Written dump r private_dict log (append_checked r checked log)
  append_checked-Written (ok line) e = append_line-Written line log.faults e refl
  append_checked-Written (err cause) e = not_done log.faults

  pub write_record-Written : Written dump r private_dict log (write_record dump r private_dict log)
  unfolding write_record
  write_record-Written = append_checked-Written (scrub_stream (dump r) private_dict) refl

-- The outcome that a record gives for a response.
abbrev pub outcome_of : Option ExecutionFailureReason → Text
outcome_of none = codes "success"
outcome_of (some reason) = reason_value reason

abbrev pub status_for : Option ExecutionFailureReason → Status
status_for none = accepted
status_for (some reason) = failed

-- A record that says of a response what it is.
pub record Tells (r : AuditRecord) (response : ExecutionResponse) : Type 0 where
  pub same_id : r.request_id ≡ response.audit_record_id
  pub outcome : r.outcome ≡ outcome_of response.reason
  pub status : response.status ≡ status_for response.reason
  pub artifacts : r.artifact_locators ≡ response.artifacts

-- The response to a call whose record could not be written.
pub record IsUnrecorded (response : ExecutionResponse) : Type 0 where
  pub reason : response.reason ≡ some audit_write_failed
  pub status : response.status ≡ failed
  pub artifacts : response.artifacts ≡ []
  pub stdout : response.scrubbed_stdout ≡ []
  pub stderr : response.scrubbed_stderr ≡ []

-- The events after a call: one record on top of those before it, or none.
abbrev pub Logged : List Event → ExecutionResponse × Log → Type 0
Logged earlier (response, log) =
    ((r : AuditRecord) × (line : Text) × (log.events ≡ appended r line ∷ earlier)
      × Tells r response
      × NoVaultPath line)
    ⊎ ((log.events ≡ earlier) × IsUnrecorded response)

module _ (dump : AuditRecord → Text) (repr_of : Text → Text) (request_id : Text)
    (scope : ExecutionScope) where
  after_record-Logged :
      (denial : Denial) (safe : Text) (log : Log) (w : Bool × Log)
      → Written dump
          (denial_record dump repr_of request_id scope denial safe)
          denial.private_dict
          log
          w
      → Logged log.events (after_record dump repr_of request_id scope denial safe w)
  after_record-Logged denial safe log _ (done line faults e) = inl (
    denial_record dump repr_of request_id scope denial safe,
    line,
    refl,
    record { same_id = refl; outcome = refl; status = refl; artifacts = refl },
    (scrub_stream_clean _ denial.private_dict e).1,
  )
  after_record-Logged denial safe log _ (not_done faults) = inr (
    refl,
    record { reason = refl; status = refl; artifacts = refl; stdout = refl; stderr = refl },
  )

  pub emit_failure-Logged :
      (denial : Denial) (log : Log)
      → Logged log.events (emit_failure dump repr_of request_id scope denial log)
  unfolding emit_failure
  emit_failure-Logged denial log =
      after_record-Logged denial _ log _ (write_record-Written dump _ denial.private_dict log)
