-- ===== src/Execution/Ways.antt =====
-- The ways out of a call of the dispatcher.
use yomotsusaka.Prelude.{
  Text, Bool, true, false, Option, none, some, List, [], ◌∷◌, ◌≡◌, ◌⊎◌, inl, inr, refl, ap, Result,
  ok, err,
}
use yomotsusaka.Scrubber.{ScrubError, scrub_stream}
use yomotsusaka.Vault.{FilePath, Disk, Codec}
use yomotsusaka.Boundary.Locator.{parse_locator}
use yomotsusaka.Boundary.Resolver.{
  ResolverScope, ResolverFailureReason, PrivateState, ResolverSuccess, Resolution, failure, success,
  resolve,
}
use yomotsusaka.Audit.{AuditRecord, Log, write_record}
use yomotsusaka.Execution.{
  ExecutionScope, ExecutionRequest, ExecutionInput, not_a_request, a_request, ExecutionResponse,
  TemplateResult, TemplateOutcome, returned, raised, TemplateSpec, find_template, denies,
  is_manifest_locator, Denial, entries_of, unscrubbable,
}
use yomotsusaka.Execution.Dispatch.{
  locator_of, emit_failure, after_success, success_record, scrub_step, output_step, after_template,
  result_step, invoke_step, state_step, resolved_step, parsed_step, target_step, locator_step,
  gate_step, template_step, denial_of_input, execute_request,
}

module _ (dump : AuditRecord → Text) (repr_of : Text → Text) (codec : Codec)
    (resolver_detail : ResolverFailureReason → Text) (templates : List TemplateSpec)
    (root : FilePath) (request_id : Text) (scope : ExecutionScope) (log : Log) where
  -- What is sure when a template runs: it is registered, the scope reaches its floor, and the state
  -- that it is handed is what the resolver found behind its locator, if it asks for one.
  pub record Granted (request : ExecutionRequest) (spec : TemplateSpec)
      (private_state : Option PrivateState) : Type 0 where
    pub found : find_template request.job_name templates ≡ some spec
    pub allowed : denies spec.min_scope scope ≡ false
    pub resolved :
        ((spec.requires_locator_input ≡ false) × (private_state ≡ none))
        ⊎ ((spec.requires_locator_input ≡ true)
            × ((s : ResolverSuccess) × (state : PrivateState) × (resolve codec
                    (locator_of request)
                    ResolverScope.private_boundary
                    request.purpose
                    root
                    log.disk
                  ≡ success s)
                × (s.private_state ≡ some state)
                × (private_state ≡ some state)))

  -- One constructor for each way out, with the conditions that lead there.
  pub data Way : ExecutionInput → ExecutionResponse × Log → Type 0 where
    refused :
        (input : ExecutionInput) (denial : Denial)
        → denial.private_dict ≡ []
        → Way input (emit_failure dump repr_of request_id scope denial log)
    ran_in_vain :
        (request : ExecutionRequest) (spec : TemplateSpec) (private_state : Option PrivateState)
        (outcome : TemplateOutcome) (d : Disk) (denial : Denial)
        → Granted request spec private_state
        → spec.fn request private_state root log.disk ≡ (outcome, d)
        → denial.private_dict ≡ entries_of private_state
        → Way
            (a_request request)
            (emit_failure dump repr_of request_id scope denial (after_template request d log))
    ran :
        (request : ExecutionRequest) (spec : TemplateSpec) (private_state : Option PrivateState)
        (result : TemplateResult) (d : Disk) (stdout stderr : Text)
        → Granted request spec private_state
        → spec.fn request private_state root log.disk ≡ (returned result, d)
        → unscrubbable private_state result.stdout result.stderr ≡ false
        → scrub_stream result.stdout (entries_of private_state) ≡ ok stdout
        → scrub_stream result.stderr (entries_of private_state) ≡ ok stderr
        → Way (a_request request) (
            after_success request_id result stdout stderr (
              write_record dump
                (success_record request_id scope request result)
                (entries_of private_state)
                (after_template request d log)))

  module _ (request : ExecutionRequest) (spec : TemplateSpec) where
    module _ (private_state : Option PrivateState) (granted : Granted request spec private_state)
        (d : Disk) (result : TemplateResult)
        (done : spec.fn request private_state root log.disk ≡ (returned result, d)) where
      scrub_step-Way :
          (stdout stderr : Result ScrubError Text)
          → unscrubbable private_state result.stdout result.stderr ≡ false
          → scrub_stream result.stdout (entries_of private_state) ≡ stdout
          → scrub_stream result.stderr (entries_of private_state) ≡ stderr
          → Way (a_request request) (
              scrub_step dump repr_of request_id scope request result private_state stdout stderr
                (after_template request d log))
      scrub_step-Way (ok stdout) (ok stderr) u e f =
          ran request spec private_state result d stdout stderr granted done u e f
      scrub_step-Way (ok stdout) (err cause) u e f =
          ran_in_vain request spec private_state (returned result) d _ granted done refl
      scrub_step-Way (err cause) stderr u e f =
          ran_in_vain request spec private_state (returned result) d _ granted done refl

      output_step-Way :
          (b : Bool)
          → unscrubbable private_state result.stdout result.stderr ≡ b
          → Way (a_request request) (
              output_step dump repr_of request_id scope request result private_state b
                (after_template request d log))
      output_step-Way true u =
          ran_in_vain request spec private_state (returned result) d _ granted done refl
      output_step-Way false u = scrub_step-Way _ _ u refl refl

    result_step-Way :
        (private_state : Option PrivateState) (run : TemplateOutcome × Disk)
        → Granted request spec private_state
        → spec.fn request private_state root log.disk ≡ run
        → Way
            (a_request request)
            (result_step dump repr_of request_id scope request private_state run log)
    result_step-Way private_state (raised class_name, d) granted e =
        ran_in_vain request spec private_state (raised class_name) d _ granted e refl
    result_step-Way private_state (returned result, d) granted e =
        output_step-Way private_state granted d result e _ refl

    invoke_step-Way :
        (private_state : Option PrivateState)
        → Granted request spec private_state
        → Way (a_request request) (
            invoke_step dump repr_of request_id scope request codec resolver_detail root spec
              private_state log)
    unfolding invoke_step
    invoke_step-Way private_state granted = result_step-Way private_state _ granted refl

    resolved_step-Way :
        (r : Resolution)
        → find_template request.job_name templates ≡ some spec
        → denies spec.min_scope scope ≡ false
        → spec.requires_locator_input ≡ true
        → resolve codec
            (locator_of request)
            ResolverScope.private_boundary
            request.purpose
            root
            log.disk
          ≡ r
        → Way (a_request request) (
            resolved_step dump repr_of request_id scope request codec resolver_detail root spec r
              log)
    resolved_step-Way (failure locator reason) f a q e = refused (a_request request) _ refl
    resolved_step-Way (success s) f a q e = state_way s.private_state refl
      where
        state_way :
            (o : Option PrivateState)
            → s.private_state ≡ o
            → Way (a_request request) (
                state_step dump repr_of request_id scope request codec resolver_detail root spec o
                  log)
        state_way none k = refused (a_request request) _ refl
        state_way (some state) k =
            invoke_step-Way (some state)
              (record { found = f; allowed = a; resolved = inr (q, (s, state, e, k, refl)) })

    target_step-Way :
        (locator : Text)
        → find_template request.job_name templates ≡ some spec
        → denies spec.min_scope scope ≡ false
        → spec.requires_locator_input ≡ true
        → locator_of request ≡ locator
        → Way (a_request request) (
            target_step dump repr_of request_id scope request codec resolver_detail root spec
              locator log)
    target_step-Way [] f a q e = refused (a_request request) _ refl
    target_step-Way (c ∷ locator) f a q e =
        parsed_way (is_manifest_locator (parse_locator (c ∷ locator)))
      where
        parsed_way :
            (b : Bool)
            → Way (a_request request) (
                parsed_step dump repr_of request_id scope request codec resolver_detail root spec
                  (c ∷ locator)
                  b
                  log)
        parsed_way false = refused (a_request request) _ refl
        parsed_way true = resolved_step-Way _ f a q (
            ap (λ l. resolve codec l ResolverScope.private_boundary request.purpose root log.disk)
              e)

    gate_step-Way :
        (b : Bool)
        → find_template request.job_name templates ≡ some spec
        → denies spec.min_scope scope ≡ b
        → Way
            (a_request request)
            (gate_step dump repr_of request_id scope request codec resolver_detail root spec b log)
    gate_step-Way true f a = refused (a_request request) _ refl
    gate_step-Way false f a = locator_way spec.requires_locator_input refl
      where
        locator_way :
            (b : Bool)
            → spec.requires_locator_input ≡ b
            → Way (a_request request) (
                locator_step dump repr_of request_id scope request codec resolver_detail root spec b
                  log)
        locator_way false q =
            invoke_step-Way none (record { found = f; allowed = a; resolved = inl (q, refl) })
        locator_way true q = target_step-Way (locator_of request) f a q refl

  template_step-Way :
      (request : ExecutionRequest) (o : Option TemplateSpec)
      → find_template request.job_name templates ≡ o
      → Way
          (a_request request)
          (template_step dump repr_of request_id scope request codec resolver_detail root o log)
  template_step-Way request none f = refused (a_request request) _ refl
  template_step-Way request (some spec) f = gate_step-Way request spec _ f refl

  pub execute_request-Way :
      (input : ExecutionInput)
      → Way input (
          execute_request dump repr_of codec resolver_detail templates root request_id scope input
            log)
  unfolding execute_request
  execute_request-Way not_a_request = refused not_a_request denial_of_input refl
  execute_request-Way (a_request request) = template_step-Way request _ refl
