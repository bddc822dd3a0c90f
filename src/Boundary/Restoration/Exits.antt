-- ===== src/Boundary/Restoration/Exits.antt =====
-- The ways out of a restoration request.
use yomotsusaka.Prelude.{
  Text, Bool, true, false, Option, none, some, ◌≡◌, ◌≢◌, inl, inr, refl, sym, subst, Bool-cases,
  if◌then◌else◌,
}
use yomotsusaka.Vault.{FilePath, Codec}
use yomotsusaka.Policy.{PolicyTable, PolicyDecision, Verdict, permit, deny}
use yomotsusaka.Boundary.Resolver.{ResolverScope, ordinary_agent, private_boundary, audit_reviewer}
use yomotsusaka.Boundary.Restoration.{
  RestorationRequest, Input, not_a_request, a_request, FailureReason, request_schema_invalid,
  scope_denied, audit_write_failed, policy_denied, AuditRecord, RestorationResponse, audited, State,
  emit, write_fault, later_faults, append_audit, document_of, effective_policy, failure_record,
  accepted_record, failure_response, finish, call_kernel, permitted_step, decided_step, decide,
  scope_step, document_step, restoration_request,
}

abbrev pub past_write : State → State
past_write s = record s { faults = later_faults s.faults }

pub append_audit-fault :
    (r : AuditRecord) (s : State)
    → write_fault s.faults ≡ true
    → append_audit r s ≡ (false, past_write s)
unfolding append_audit
append_audit-fault r s h = rw (h, append_audit)

pub append_audit-written :
    (r : AuditRecord) (s : State)
    → write_fault s.faults ≡ false
    → append_audit r s ≡ (true, emit (audited r) (past_write s))
unfolding append_audit
append_audit-written r s h = rw (h, append_audit)

module _ (codec : Codec) (fullmatch : Text → Text → Bool) (resolve : FilePath → FilePath)
    (root : FilePath) (audit_id : Text) (scope : ResolverScope) (table : Option PolicyTable)
    (s : State) where
  -- One constructor for each way out, with the conditions that lead there.
  pub data Exit : Input → RestorationResponse × State → Type 0 where
    refused_before :
        (input : Input) (doc early : Option Text) (reason : FailureReason)
        (decision : Option PolicyDecision)
        → reason ≢ audit_write_failed
        → Exit input (
            finish audit_id early
              (failure_record audit_id scope input reason decision)
              (failure_response audit_id doc reason)
              s)
    intent_unwritten :
        (request : RestorationRequest) (doc : Text)
        → Exit
            (a_request request)
            (failure_response audit_id (some doc) audit_write_failed, past_write s)
    reached :
        (request : RestorationRequest) (doc : Text) (decision : PolicyDecision)
        → scope ≡ private_boundary
        → document_of request.target ≡ some doc
        → decide fullmatch (effective_policy table) request ≡ some decision
        → decision.verdict ≡ permit
        → Exit (a_request request) (
            call_kernel codec fullmatch resolve root audit_id scope request doc decision (
              emit (audited (accepted_record audit_id scope request none decision)) (past_write s)))

  decided_step-Exit :
      (request : RestorationRequest) (doc : Text) (decision : PolicyDecision) (v : Verdict)
      → scope ≡ private_boundary
      → document_of request.target ≡ some doc
      → decide fullmatch (effective_policy table) request ≡ some decision
      → decision.verdict ≡ v
      → Exit
          (a_request request)
          (decided_step codec fullmatch resolve root audit_id scope request doc decision v s)
  unfolding permitted_step
  decided_step-Exit request doc decision deny inside found decided same =
      refused_before (a_request request) (some doc) (some doc) policy_denied (some decision)
        (λ e. cc)
  decided_step-Exit request doc decision permit inside found decided same =
      let intent = accepted_record audit_id scope request none decision in
      let step = λ (out : Bool × State).
        (if out.0
          then call_kernel codec fullmatch resolve root audit_id scope request doc decision out.1
          else (failure_response audit_id (some doc) audit_write_failed, out.1)) in
      elim (Bool-cases (write_fault s.faults)) [
        | inl f ↦
            subst (λ out. Exit (a_request request) (step out)) (sym (append_audit-fault intent s f))
              (intent_unwritten request doc)
        | inr f ↦
            subst (λ out. Exit (a_request request) (step out))
              (sym (append_audit-written intent s f))
              (reached request doc decision inside found decided same)
      ]

  -- The ways out are all of them; no response is a `KeyError`.
  abbrev pub Left : Input → Option RestorationResponse × State → Type 0
  Left input (none, s') = Unit
  Left input (some response, s') = Exit input (response, s')

  scope_step-Left :
      (request : RestorationRequest) (doc : Text) (decision : Option PolicyDecision)
      (c : ResolverScope)
      → scope ≡ c
      → document_of request.target ≡ some doc
      → decide fullmatch (effective_policy table) request ≡ decision
      → Left
          (a_request request)
          (scope_step codec fullmatch resolve root audit_id scope request doc decision c s)
  scope_step-Left request doc none private_boundary same found decided = tt
  scope_step-Left request doc (some decision) private_boundary same found decided =
      decided_step-Exit request doc decision decision.verdict same found decided refl
  scope_step-Left request doc decision ordinary_agent same found decided =
      refused_before (a_request request) (some doc) none scope_denied none (λ e. cc)
  scope_step-Left request doc decision audit_reviewer same found decided =
      refused_before (a_request request) (some doc) none scope_denied none (λ e. cc)

  document_step-Left :
      (request : RestorationRequest) (doc : Option Text) (decision : Option PolicyDecision)
      → document_of request.target ≡ doc
      → decide fullmatch (effective_policy table) request ≡ decision
      → Left
          (a_request request)
          (document_step codec fullmatch resolve root audit_id scope request doc decision s)
  document_step-Left request none decision found decided =
      refused_before (a_request request) none none request_schema_invalid none (λ e. cc)
  document_step-Left request (some doc) decision found decided =
      scope_step-Left request doc decision scope refl found decided

  pub restoration_request-Left :
      (input : Input)
      → Left input (restoration_request codec fullmatch resolve root audit_id scope input table s)
  unfolding restoration_request
  restoration_request-Left not_a_request =
      refused_before not_a_request none none request_schema_invalid none (λ e. cc)
  restoration_request-Left (a_request request) =
      document_step-Left request (document_of request.target) _ refl refl

  pub restoration_request-Exit :
      (input : Input) (response : RestorationResponse) (s' : State)
      → restoration_request codec fullmatch resolve root audit_id scope input table s
        ≡ (some response, s')
      → Exit input (response, s')
  restoration_request-Exit input response s' e =
      subst (Left input) e (restoration_request-Left input)
