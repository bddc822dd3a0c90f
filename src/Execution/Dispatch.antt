-- ===== src/Execution/Dispatch.antt =====
-- `execute_request` (src/yomotsusaka/boundary.py), step by step as in the source.
use yomotsusaka.Prelude.{
  Text, codes, Bool, true, false, Option, none, some, List, [], ◌∷◌, ◌++◌, Result, ok, err,
}
use yomotsusaka.Scrubber.{ScrubError, scrub_stream}
use yomotsusaka.Vault.{FilePath, Disk, Codec}
use yomotsusaka.Boundary.Locator.{parse_locator}
use yomotsusaka.Boundary.Resolver.{
  ResolverScope, ResolverFailureReason, PrivateState, Resolution, failure, success, resolve,
}
use yomotsusaka.Audit.{AuditRecord, Log, template_ran, write_record}
use yomotsusaka.Execution.{
  ExecutionScope, scope_value, ExecutionFailureReason, scope_denied, template_not_found,
  schema_invalid, scrub_failed, template_raised, artifact_missing, audit_write_failed, reason_value,
  resolver_reason_value, ExecutionRequest, ExecutionInput, not_a_request, a_request, accepted,
  failed, ExecutionResponse, TemplateResult, TemplateOutcome, returned, raised, TemplateSpec,
  find_template, denies, locator_text, is_manifest_locator, mapped, Denial, or_unknown,
  safe_detail_of, entries_of, residual_key, unscrubbable,
}

module _ (request_id : Text) where
  abbrev pub failed_response : ExecutionFailureReason → Text → ExecutionResponse
  failed_response reason detail = record {
    audit_record_id = request_id;
    status = failed;
    artifacts = [];
    scrubbed_stdout = [];
    scrubbed_stderr = [];
    reason = some reason;
    detail = some detail;
  }

module _ (dump : AuditRecord → Text) (repr_of : Text → Text) (request_id : Text)
    (scope : ExecutionScope) where
  abbrev pub denial_record : Denial → Text → AuditRecord
  denial_record denial safe_detail = record {
    request_id = request_id;
    template_name = or_unknown denial.template_name;
    caller_scope = or_unknown (scope_value scope);
    purpose = or_unknown denial.purpose;
    locator = denial.locator;
    outcome = reason_value denial.reason;
    artifact_locators = [];
    resolver_reason = denial.resolver_reason;
    detail = some safe_detail;
  }

  -- The answer to a call whose record was written or not.
  abbrev pub after_record : Denial → Text → Bool × Log → ExecutionResponse × Log
  after_record denial safe_detail (true, log) =
      (failed_response request_id denial.reason safe_detail, log)
  after_record denial safe_detail (false, log) = (
    failed_response request_id audit_write_failed
        (codes "audit write failed for outcome " ++ repr_of (reason_value denial.reason)),
    log,
  )

  -- `_emit_failure`
  unfoldable pub emit_failure : Denial → Log → ExecutionResponse × Log
  unfolding scrub_stream write_record
  emit_failure denial log =
      let safe_detail = safe_detail_of (scrub_stream denial.detail denial.private_dict) in
      after_record denial safe_detail
        (write_record dump (denial_record denial safe_detail) denial.private_dict log)

abbrev pub locator_of : ExecutionRequest → Text
locator_of request = locator_text (request.inputs (codes "target_handle"))

-- A denial of a request
abbrev pub denial_for :
    ExecutionRequest → ExecutionFailureReason → Text → Option PrivateState → Option Text → Denial
denial_for request reason detail private_state resolver_reason = record {
  reason = reason;
  detail = detail;
  template_name = request.job_name;
  purpose = request.purpose;
  locator = locator_of request;
  resolver_reason = resolver_reason;
  private_dict = entries_of private_state;
}

-- Step 9: the success record, then the answer.
abbrev pub success_record : Text → ExecutionScope → ExecutionRequest → TemplateResult → AuditRecord
success_record request_id scope request result = record {
  request_id = request_id;
  template_name = request.job_name;
  caller_scope = scope_value scope;
  purpose = request.purpose;
  locator = locator_of request;
  outcome = codes "success";
  artifact_locators = result.artifact_handles;
  resolver_reason = none;
  detail = none;
}

abbrev pub success_response : Text → TemplateResult → Text → Text → ExecutionResponse
success_response request_id result stdout stderr = record {
  audit_record_id = request_id;
  status = accepted;
  artifacts = result.artifact_handles;
  scrubbed_stdout = stdout;
  scrubbed_stderr = stderr;
  reason = none;
  detail = none;
}

abbrev pub after_success :
    Text → TemplateResult → Text → Text → Bool × Log → ExecutionResponse × Log
after_success request_id result stdout stderr (true, log) =
    (success_response request_id result stdout stderr, log)
after_success request_id result stdout stderr (false, log) = (
  failed_response request_id audit_write_failed (codes "audit write failed for outcome 'success'"),
  log,
)

-- The log after the template has run, which may have changed the disk.
abbrev pub after_template : ExecutionRequest → Disk → Log → Log
after_template request d log = record log {
  disk = d;
  events = template_ran request.job_name ∷ log.events;
}

module _ (dump : AuditRecord → Text) (repr_of : Text → Text) (request_id : Text)
    (scope : ExecutionScope) (request : ExecutionRequest) where
  -- Step 8, behind the test: the two outputs scrubbed.
  abbrev pub scrub_step :
      TemplateResult
      → Option PrivateState
      → Result ScrubError Text
      → Result ScrubError Text
      → Log
      → ExecutionResponse × Log
  scrub_step result private_state (ok stdout) (ok stderr) log =
      after_success request_id result stdout stderr (
        write_record dump (success_record request_id scope request result)
          (entries_of private_state) log)
  scrub_step result private_state (ok stdout) (err cause) log =
      emit_failure dump repr_of request_id scope
        (denial_for request scrub_failed
          (codes
              "scrubber rejected template output: scrubber re-check found residual raw value for key "
            ++ repr_of (residual_key cause))
          private_state none)
        log
  scrub_step result private_state (err cause) stderr log =
      emit_failure dump repr_of request_id scope
        (denial_for request scrub_failed
          (codes
              "scrubber rejected template output: scrubber re-check found residual raw value for key "
            ++ repr_of (residual_key cause))
          private_state none)
        log

  -- Step 8: free output without a dictionary is refused.
  abbrev pub output_step :
      TemplateResult → Option PrivateState → Bool → Log → ExecutionResponse × Log
  output_step result private_state true log =
      emit_failure dump repr_of request_id scope
        (denial_for request scrub_failed
          (codes "locatorless template returned free-form output without a scrub dictionary")
          private_state none)
        log
  output_step result private_state false log =
      scrub_step result private_state (scrub_stream result.stdout (entries_of private_state))
        (scrub_stream result.stderr (entries_of private_state)) log

  -- Step 7: what the template came to.
  abbrev pub result_step :
      Option PrivateState → TemplateOutcome × Disk → Log → ExecutionResponse × Log
  result_step private_state (raised class_name, d) log =
      emit_failure dump repr_of request_id scope
        (denial_for request template_raised
          (codes "template " ++ (repr_of request.job_name ++ (codes " raised " ++ class_name)))
          private_state none)
        (after_template request d log)
  result_step private_state (returned result, d) log =
      output_step result private_state (unscrubbable private_state result.stdout result.stderr)
        (after_template request d log)

  module _ (codec : Codec) (resolver_detail : ResolverFailureReason → Text) (root : FilePath) where
    unfoldable pub invoke_step : TemplateSpec → Option PrivateState → Log → ExecutionResponse × Log
    unfolding emit_failure write_record scrub_stream
    invoke_step spec private_state log =
        result_step private_state (spec.fn request private_state root log.disk) log

    -- Step 6: what the resolver came to.
    abbrev pub state_step : TemplateSpec → Option PrivateState → Log → ExecutionResponse × Log
    state_step spec none log =
        emit_failure dump repr_of request_id scope
          (denial_for request artifact_missing
            (codes "resolver returned success without PrivateState") none none)
          log
    state_step spec (some state) log = invoke_step spec (some state) log

    abbrev pub resolved_step : TemplateSpec → Resolution → Log → ExecutionResponse × Log
    resolved_step spec (failure locator reason) log =
        emit_failure dump repr_of request_id scope
          (denial_for request (mapped reason) (resolver_detail reason) none
            (some (resolver_reason_value reason)))
          log
    resolved_step spec (success s) log = state_step spec s.private_state log

    -- Step 5: the shape of the locator.
    abbrev pub parsed_step : TemplateSpec → Text → Bool → Log → ExecutionResponse × Log
    parsed_step spec locator false log =
        emit_failure dump repr_of request_id scope
          (denial_for request schema_invalid
            (codes "target_handle does not parse as a manifest locator") none none)
          log
    parsed_step spec locator true log =
        resolved_step spec
          (resolve codec locator ResolverScope.private_boundary request.purpose root log.disk) log

    abbrev pub target_step : TemplateSpec → Text → Log → ExecutionResponse × Log
    target_step spec [] log =
        emit_failure dump repr_of request_id scope
          (denial_for request schema_invalid
            (codes "template "
              ++ (repr_of request.job_name
                  ++ codes " requires inputs['target_handle'] to be a non-empty locator string"))
            none none)
          log
    target_step spec (c ∷ locator) log =
        parsed_step spec (c ∷ locator) (is_manifest_locator (parse_locator (c ∷ locator))) log

    abbrev pub locator_step : TemplateSpec → Bool → Log → ExecutionResponse × Log
    locator_step spec false log = invoke_step spec none log
    locator_step spec true log = target_step spec (locator_of request) log

    -- Step 3: the scope gate.
    abbrev pub gate_step : TemplateSpec → Bool → Log → ExecutionResponse × Log
    gate_step spec true log =
        emit_failure dump repr_of request_id scope
          (denial_for request scope_denied
            (codes "template "
              ++ (repr_of request.job_name
                  ++ (codes " requires scope=PRIVATE_BOUNDARY; caller scope was "
                      ++ repr_of (scope_value scope))))
            none none)
          log
    gate_step spec false log = locator_step spec spec.requires_locator_input log

    -- Step 2: the registry.
    abbrev pub template_step : Option TemplateSpec → Log → ExecutionResponse × Log
    template_step none log =
        emit_failure dump repr_of request_id scope
          (denial_for request template_not_found
            (codes "no template registered under name " ++ repr_of request.job_name) none none)
          log
    template_step (some spec) log = gate_step spec (denies spec.min_scope scope) log

-- The denial of what is no request
abbrev pub denial_of_input : Denial
denial_of_input = record {
  reason = schema_invalid;
  detail = codes "request must be an ExecutionRequest instance";
  template_name = codes "<invalid>";
  purpose = codes "<invalid>";
  locator = [];
  resolver_reason = none;
  private_dict = [];
}

module _ (dump : AuditRecord → Text) (repr_of : Text → Text) (codec : Codec)
    (resolver_detail : ResolverFailureReason → Text) (templates : List TemplateSpec)
    (root : FilePath) (request_id : Text) (scope : ExecutionScope) where
  -- `execute_request`
  unfoldable pub execute_request : ExecutionInput → Log → ExecutionResponse × Log
  unfolding emit_failure invoke_step find_template resolve
  execute_request not_a_request log = emit_failure dump repr_of request_id scope denial_of_input log
  execute_request (a_request request) log =
      template_step dump repr_of request_id scope request codec resolver_detail root
        (find_template request.job_name templates) log
