-- ===== src/Execution/Gate.antt =====
-- Who gets a template to run, and what is shown of its output.
use yomotsusaka.Prelude.{
  Text, Bool, true, false, Option, none, some, List, [], ◌∷◌, ◌≡◌, inl, inr, refl, ◌∙◌, All, ok,
  eq_text, Bool-cases,
}
use yomotsusaka.Schemas.{PrivateDictEntry}
use yomotsusaka.Scrubber.{scrub_stream}
use yomotsusaka.Scrubber.Laws.{scrub_stream_clean}
use yomotsusaka.Scrubber.Paths.{NoVaultPath}
use yomotsusaka.Validator.Spec.{NoLeak}
use yomotsusaka.Vault.{FilePath, Codec}
use yomotsusaka.Boundary.Resolver.{ResolverFailureReason, PrivateState}
use yomotsusaka.Audit.{AuditRecord, Log}
use yomotsusaka.Execution.{
  ExecutionScope, private_boundary, ordinary_agent, ExecutionRequest, ExecutionInput, a_request,
  accepted, failed, ExecutionResponse, TemplateResult, TemplateSpec, find_template, denies, Denial,
  entries_of, unscrubbable,
}
use yomotsusaka.Execution.Dispatch.{
  after_record, emit_failure, after_success, after_template, execute_request, denial_record,
}
use yomotsusaka.Execution.Ways.{Granted, Way, refused, ran_in_vain, ran, execute_request-Way}
use yomotsusaka.Execution.Responses.{
  Written, done, not_done, write_record-Written, Logged, emit_failure-Logged,
}

-- An output that holds no raw value of the dictionary and no path of the vault.
abbrev pub IsScrubbed : List PrivateDictEntry → Text → Type 0
IsScrubbed private_dict output = All (NoLeak output) private_dict × NoVaultPath output

-- Without a dictionary there is no output.
no_output :
    (private_state : Option PrivateState) (stdout stderr out : Text)
    → unscrubbable private_state stdout stderr ≡ false
    → scrub_stream stdout (entries_of private_state) ≡ ok out
    → private_state ≡ none
    → out ≡ []
unfolding scrub_stream
no_output (some state) stdout stderr out u e n = cc
no_output none [] [] out u e n = cc
no_output none (c ∷ stdout) stderr out u e n = cc
no_output none [] (c ∷ stderr) out u e n = cc

no_errors :
    (private_state : Option PrivateState) (stdout stderr out : Text)
    → unscrubbable private_state stdout stderr ≡ false
    → scrub_stream stderr (entries_of private_state) ≡ ok out
    → private_state ≡ none
    → out ≡ []
unfolding scrub_stream
no_errors (some state) stdout stderr out u e n = cc
no_errors none [] [] out u e n = cc
no_errors none (c ∷ stdout) stderr out u e n = cc
no_errors none [] (c ∷ stderr) out u e n = cc

module _ (dump : AuditRecord → Text) (repr_of : Text → Text) (request_id : Text)
    (scope : ExecutionScope) where
  after_record_failed :
      (denial : Denial) (safe : Text) (w : Bool × Log)
      → (after_record dump repr_of request_id scope denial safe w).0.status ≡ failed
  after_record_failed denial safe (true, log) = refl
  after_record_failed denial safe (false, log) = refl

  emit_failure_failed :
      (denial : Denial) (log : Log)
      → (emit_failure dump repr_of request_id scope denial log).0.status ≡ failed
  unfolding emit_failure
  emit_failure_failed denial log = after_record_failed denial _ _

  after_record-disk :
      (denial : Denial) (safe : Text) (log : Log) (w : Bool × Log)
      → Written dump
          (denial_record dump repr_of request_id scope denial safe)
          denial.private_dict
          log
          w
      → (after_record dump repr_of request_id scope denial safe w).1.disk ≡ log.disk
  after_record-disk denial safe log _ (done line faults e) = refl
  after_record-disk denial safe log _ (not_done faults) = refl

  emit_failure-disk :
      (denial : Denial) (log : Log)
      → (emit_failure dump repr_of request_id scope denial log).1.disk ≡ log.disk
  unfolding emit_failure
  emit_failure-disk denial log =
      after_record-disk denial _ log _ (write_record-Written dump _ denial.private_dict log)

-- The outputs of an accepted call are those that the scrubber let pass.
accepted_outputs :
    (request_id : Text) (result : TemplateResult) (stdout stderr : Text) (w : Bool × Log)
    → let response = (after_success request_id result stdout stderr w).0 in
      response.status ≡ accepted
      → (response.scrubbed_stdout ≡ stdout) × (response.scrubbed_stderr ≡ stderr)
accepted_outputs request_id result stdout stderr (true, log) h = (refl, refl)
accepted_outputs request_id result stdout stderr (false, log) h = absurd (cc)

module _ (dump : AuditRecord → Text) (repr_of : Text → Text) (codec : Codec)
    (resolver_detail : ResolverFailureReason → Text) (templates : List TemplateSpec)
    (root : FilePath) (request_id : Text) (scope : ExecutionScope) (log : Log) where
  -- What an accepted call shows, for some template that was allowed to run.
  abbrev pub Clean : ExecutionInput → ExecutionResponse → Type 0
  Clean input response =
      (request : ExecutionRequest) × (spec : TemplateSpec) × (private_state : Option PrivateState)
      × (input ≡ a_request request)
      × Granted dump repr_of codec resolver_detail templates root request_id scope log request spec
          private_state
      × IsScrubbed (entries_of private_state) response.scrubbed_stdout
      × IsScrubbed (entries_of private_state) response.scrubbed_stderr
      × (private_state ≡ none → (response.scrubbed_stdout ≡ []) × (response.scrubbed_stderr ≡ []))

  Way-Clean :
      (input : ExecutionInput) (out : ExecutionResponse × Log)
      → Way dump repr_of codec resolver_detail templates root request_id scope log input out
      → out.0.status ≡ accepted
      → Clean input out.0
  Way-Clean _ _ (refused input denial e) h =
      absurd (cc (h, emit_failure_failed dump repr_of request_id scope denial log))
  Way-Clean _ _ (ran_in_vain request spec state outcome d denial g r e) h = absurd (
      cc (
        h,
        emit_failure_failed dump repr_of request_id scope denial (after_template request d log),
      ))
  Way-Clean _ _ (ran request spec state result d stdout stderr g r u e f) h =
      let (same_out, same_err) = accepted_outputs request_id result stdout stderr _ h in
      (
        request,
        spec,
        state,
        refl,
        g,
        rw same_out (scrub_stream_clean result.stdout (entries_of state) e),
        rw same_err (scrub_stream_clean result.stderr (entries_of state) f),
        λ n. (
          same_out ∙ no_output state result.stdout result.stderr stdout u e n,
          same_err ∙ no_errors state result.stdout result.stderr stderr u f n,
        ),
      )

  -- If the dispatcher accepts a call, then the call was a request whose template is registered,
  -- whose scope reaches the template's floor, and whose locator, if the template asks for one, was
  -- resolved inside the private boundary. Both outputs are then free of every raw value of the
  -- resolved dictionary that is not empty and of every path of the vault's layout, and both are
  -- empty if no dictionary was resolved.
  pub execute_request-Clean :
      (input : ExecutionInput)
      → let response =
          (execute_request dump repr_of codec resolver_detail templates root request_id scope input
            log).0 in
        response.status ≡ accepted → Clean input response
  execute_request-Clean input = Way-Clean input _ (
      execute_request-Way dump repr_of codec resolver_detail templates root request_id scope log
        input)

-- Every template of the list wants a caller inside the private boundary.
abbrev pub AllPrivate : List TemplateSpec → Type 0
AllPrivate templates = All (λ spec. spec.min_scope ≡ private_boundary) templates

find_template-private :
    (name : Text) (templates : List TemplateSpec) (spec : TemplateSpec)
    → AllPrivate templates
    → find_template name templates ≡ some spec
    → spec.min_scope ≡ private_boundary
unfolding find_template
find_template-private name [] spec h e = cc
find_template-private name (s ∷ templates) spec h e = elim (Bool-cases (eq_text name s.name)) [
  | inl b ↦ (let same : some s ≡ some spec = rw (b, find_template) at e in cc (same, h.0))
  | inr b ↦ find_template-private name templates spec h.1 (rw (b, find_template) at e)
]

denied :
    (scope : ExecutionScope) → scope ≡ private_boundary → ¬ (denies scope ordinary_agent ≡ false)
denied private_boundary e d = cc
denied ordinary_agent e d = cc

module _ (dump : AuditRecord → Text) (repr_of : Text → Text) (codec : Codec)
    (resolver_detail : ResolverFailureReason → Text) (templates : List TemplateSpec)
    (root : FilePath) (request_id : Text) (log : Log) where
  -- A call that ran nothing.
  abbrev pub RanNothing : ExecutionResponse × Log → Type 0
  RanNothing out = (out.0.status ≡ failed) × (out.1.disk ≡ log.disk) × Logged log.events out

  Way-RanNothing :
      (input : ExecutionInput) (out : ExecutionResponse × Log)
      → AllPrivate templates
      → Way dump repr_of codec resolver_detail templates root request_id ordinary_agent log input
          out
      → RanNothing out
  Way-RanNothing _ _ h (refused input denial e) = (
    emit_failure_failed dump repr_of request_id ordinary_agent denial log,
    emit_failure-disk dump repr_of request_id ordinary_agent denial log,
    emit_failure-Logged dump repr_of request_id ordinary_agent denial log,
  )
  Way-RanNothing _ _ h (ran_in_vain request spec state outcome d denial g r e) = absurd (
      denied spec.min_scope (find_template-private request.job_name templates spec h g.found)
        g.allowed)
  Way-RanNothing _ _ h (ran request spec state result d stdout stderr g r u e f) = absurd (
      denied spec.min_scope (find_template-private request.job_name templates spec h g.found)
        g.allowed)

  -- If every registered template asks for a caller inside the private boundary, then a call of an
  -- ordinary agent fails, runs no template, leaves the disk as it was, and is recorded like every
  -- other call.
  pub execute_request-RanNothing :
      (input : ExecutionInput)
      → AllPrivate templates
      → RanNothing (
          execute_request dump repr_of codec resolver_detail templates root request_id
            ordinary_agent input log)
  execute_request-RanNothing input h = Way-RanNothing input _ h (
      execute_request-Way dump repr_of codec resolver_detail templates root request_id
        ordinary_agent log input)
