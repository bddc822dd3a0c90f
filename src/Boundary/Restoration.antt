-- ===== src/Boundary/Restoration.antt =====
-- The audited restoration entry point (`RestorationRequest` and `restoration_request` of
-- src/yomotsusaka/boundary.py). An audit record holds the request instead of the fields that the
-- source copies out of it; identifiers come from outside, `detail` texts and time stamps are left out.
pub mod Requests
pub mod Exits
pub mod Audit
pub mod Gate
pub mod Restored
use yomotsusaka.Prelude.{
  ℕ, Text, codes, eq_text, Bool, true, false, not, Option, none, some, List, [], ◌∷◌, length, keep,
  is_member, ◌&&◌, ◌||◌, Result, ok, err, ◌>>=◌, ◌>>◌, require, if◌then◌else◌,
}
use yomotsusaka.Schemas.{EntityKind, EntityKind-discrete, PrivateDictEntry, ArtifactHandle}
use yomotsusaka.Vault.{FilePath, Disk, VaultError, no_private_data, Codec, private_path, restore}
use yomotsusaka.Policy.{
  PolicyRequest, PolicyTable, PolicyDecision, TableError, Verdict, permit, deny, is_nil,
  default_local, evaluate,
}
use yomotsusaka.Boundary.Locator.{ParsedLocator, exposure_classes, parse_locator, is_opaque_id}
use yomotsusaka.Boundary.Resolver.{
  ResolverScope, ordinary_agent, private_boundary, audit_reviewer, is_blank,
}

-- Exactly one of the two optional targets of a request that passed its validators.
pub data Target : Type 0 where
  target_public_handle document_id : Text → Target

pub record RestorationRequest : Type 0 where
  pub caller_label : Text
  pub target : Target
  pub requested_keys : List Text
  pub requested_entity_kinds : List EntityKind
  pub reason : Text
  pub reserved : PolicyRequest

pub data RequestError : Type 0 where
  blank_caller blank_reason naive_timestamp bad_document_id ambiguous_target no_filter :
      RequestError

abbrev pub valid_document : Option Text → Bool
valid_document none = true
valid_document (some t) = is_opaque_id t

-- An empty document id, which counts as none here, fails its own validator before.
abbrev pub choose_target : Option Text → Option Text → Result RequestError Target
choose_target (some handle) none = ok (target_public_handle handle)
choose_target none (some doc) = ok (document_id doc)
choose_target none none = err ambiguous_target
choose_target (some _) (some _) = err ambiguous_target

-- The constructor of a request with its validators; `aware` tells whether the time stamp has an offset.
unfoldable pub make_request :
    Text
    → Option Text
    → Option Text
    → List Text
    → List EntityKind
    → Text
    → Bool
    → PolicyRequest
    → Result RequestError RestorationRequest
unfolding is_blank
make_request caller handle doc keys kinds reason aware reserved = do
  require (not (is_blank caller)) blank_caller
  require (valid_document doc) bad_document_id
  require (not (is_blank reason)) blank_reason
  require aware naive_timestamp
  target ← choose_target handle doc
  require (not (is_nil (keep (λ k. not (is_blank k)) keys) && is_nil kinds)) no_filter
  ok (record {
    caller_label = caller;
    target = target;
    requested_keys = keys;
    requested_entity_kinds = kinds;
    reason = reason;
    reserved = reserved;
  })

-- A call may be handed something that is no request.
pub data Input : Type 0 where
  not_a_request : Input
  a_request : RestorationRequest → Input

pub data FailureReason : Type 0 where
  request_schema_invalid scope_denied artifact_missing audit_write_failed kernel_error
        policy_denied :
      FailureReason

pub data AuditOutcome : Type 0 where
  accepted failed : AuditOutcome

pub record AuditRecord : Type 0 where
  pub audit_record_id : Text
  pub scope : ResolverScope
  pub request : Input
  pub outcome : AuditOutcome
  pub failure_reason : Option FailureReason
  pub returned_entry_count : Option ℕ
  pub policy_verdict : Option Verdict
  pub policy_matched_profile : Option Text

pub record RestorationResponse : Type 0 where
  pub outcome : AuditOutcome
  pub audit_record_id : Text
  pub document_id : Option Text
  pub reason : Option FailureReason
  pub private_entries : Option (List PrivateDictEntry)

-- What a call does that can be seen from outside.
pub data Event : Type 0 where
  audited : AuditRecord → Event
  kernel_called : Text → Event

-- The newest event stands first. `faults` tells of the coming writes to the audit log which ones
-- raise `OSError`; behind its end none does.
pub record State : Type 0 where
  pub disk : Disk
  pub trace : List Event
  pub faults : List Bool

abbrev pub emit : Event → State → State
emit e s = record s { trace = e ∷ s.trace }

abbrev pub write_fault : List Bool → Bool
write_fault [] = false
write_fault (f ∷ fs) = f

abbrev pub later_faults : List Bool → List Bool
later_faults [] = []
later_faults (f ∷ fs) = fs

-- `_append_restoration_audit`: whether it wrote.
unfoldable pub append_audit : AuditRecord → State → Bool × State
append_audit r s =
    let s' = record s { faults = later_faults s.faults } in
    if write_fault s.faults then (false, s') else (true, emit (audited r) s')

abbrev pub has_kind : EntityKind → List EntityKind → Bool
has_kind k [] = false
has_kind k (x ∷ xs) = elim (EntityKind-discrete k x) [ yes _ ↦ true | no _ ↦ has_kind k xs ]

-- The filter on the entries: each list that is not empty must hold its part of the entry.
unfoldable pub matches : RestorationRequest → PrivateDictEntry → Bool
unfolding eq_text
matches request entry =
    (is_nil request.requested_keys || is_member entry.key request.requested_keys)
    && (is_nil request.requested_entity_kinds || has_kind entry.kind request.requested_entity_kinds)

abbrev pub manifest_id : Option ParsedLocator → Option Text
manifest_id none = none
manifest_id (some p) =
    if eq_text p.artifact_kind (codes "manifest") && is_member p.exposure_class exposure_classes
    then some p.opaque_id
    else none

-- Step (b): the document that the request is for.
unfoldable pub document_of : Target → Option Text
unfolding eq_text parse_locator
document_of (target_public_handle locator) = manifest_id (parse_locator locator)
document_of (document_id doc) = some doc

abbrev pub classify : VaultError → FailureReason
classify (no_private_data _) = artifact_missing
classify _ = kernel_error

-- `policy_table if policy_table is not None else default_local()`
abbrev pub effective_policy : Option PolicyTable → Result TableError PolicyTable
effective_policy none = default_local
effective_policy (some table) = ok table

module _ (audit_id : Text) where
  abbrev pub failure_response : Option Text → FailureReason → RestorationResponse
  failure_response doc reason = record {
    outcome = failed;
    audit_record_id = audit_id;
    document_id = doc;
    reason = some reason;
    private_entries = none;
  }

  abbrev pub accepted_response : Text → List PrivateDictEntry → RestorationResponse
  accepted_response doc entries = record {
    outcome = accepted;
    audit_record_id = audit_id;
    document_id = some doc;
    reason = none;
    private_entries = some entries;
  }

  -- Every way out: write the record, then respond. `doc` is what the response to a write that
  -- fails says of the document.
  unfoldable pub finish :
      Option Text → AuditRecord → RestorationResponse → State → RestorationResponse × State
  unfolding append_audit
  finish doc r response s =
      let out = append_audit r s in
      (if out.0 then response else failure_response doc audit_write_failed, out.1)

  module _ (scope : ResolverScope) where
    abbrev pub failure_record : Input → FailureReason → Option PolicyDecision → AuditRecord
    failure_record request reason decision = record {
      audit_record_id = audit_id;
      scope = scope;
      request = request;
      outcome = failed;
      failure_reason = some reason;
      returned_entry_count = none;
      policy_verdict = elim decision [ none ↦ none | some x ↦ some x.verdict ];
      policy_matched_profile = elim decision [ none ↦ none | some x ↦ some x.matched_profile ];
    }

    abbrev pub accepted_record : RestorationRequest → Option ℕ → PolicyDecision → AuditRecord
    accepted_record request count decision = record {
      audit_record_id = audit_id;
      scope = scope;
      request = a_request request;
      outcome = accepted;
      failure_reason = none;
      returned_entry_count = count;
      policy_verdict = some permit;
      policy_matched_profile = some decision.matched_profile;
    }

    abbrev pub kernel_result :
        RestorationRequest
        → Text
        → PolicyDecision
        → State
        → Result VaultError (List PrivateDictEntry)
        → RestorationResponse × State
    kernel_result request doc decision s (err e) =
        finish (some doc) (failure_record (a_request request) (classify e) (some decision))
          (failure_response (some doc) (classify e)) s
    kernel_result request doc decision s (ok entries) =
        let filtered = keep (matches request) entries in
        finish (some doc) (accepted_record request (some (length filtered)) decision)
          (accepted_response doc filtered) s

abbrev pub kernel_handle : (FilePath → FilePath) → FilePath → Text → ArtifactHandle
kernel_handle resolve root doc = record {
  doc_id = doc;
  vault_path = resolve (private_path root doc);
}

abbrev pub decide :
    (Text → Text → Bool)
    → Result TableError PolicyTable
    → RestorationRequest
    → Option PolicyDecision
decide fullmatch (err _) request = none
decide fullmatch (ok table) request = evaluate fullmatch table request.reserved

abbrev pub respond : RestorationResponse × State → Option RestorationResponse × State
respond out = (some out.0, out.1)

module _ (codec : Codec) (fullmatch : Text → Text → Bool) (resolve : FilePath → FilePath)
    (root : FilePath) (audit_id : Text) (scope : ResolverScope) where
  -- Steps (e) to (g).
  unfoldable pub call_kernel :
      RestorationRequest → Text → PolicyDecision → State → RestorationResponse × State
  unfolding finish matches restore
  call_kernel request doc decision s =
      kernel_result audit_id scope request doc decision (emit (kernel_called doc) s)
        (restore codec resolve (kernel_handle resolve root doc) root s.disk)

  -- Step (d): the intent record comes before the kernel.
  unfoldable pub permitted_step :
      RestorationRequest → Text → PolicyDecision → State → RestorationResponse × State
  unfolding append_audit call_kernel
  permitted_step request doc decision s =
      let out = append_audit (accepted_record audit_id scope request none decision) s in
      if out.0
      then call_kernel request doc decision out.1
      else (failure_response audit_id (some doc) audit_write_failed, out.1)

  -- Step (c.5) behind the evaluation.
  abbrev pub decided_step :
      RestorationRequest → Text → PolicyDecision → Verdict → State → RestorationResponse × State
  decided_step request doc decision permit s = permitted_step request doc decision s
  decided_step request doc decision deny s =
      finish audit_id (some doc)
        (failure_record audit_id scope (a_request request) policy_denied (some decision))
        (failure_response audit_id (some doc) policy_denied) s

  abbrev pub decision_step :
      RestorationRequest → Text → Option PolicyDecision → State → Option RestorationResponse × State
  decision_step request doc none s = (none, s)
  decision_step request doc (some decision) s =
      respond (decided_step request doc decision decision.verdict s)

  -- Step (c).
  abbrev pub scope_step :
      RestorationRequest
      → Text
      → Option PolicyDecision
      → ResolverScope
      → State
      → Option RestorationResponse × State
  scope_step request doc decision private_boundary s = decision_step request doc decision s
  scope_step request doc decision ordinary_agent s = respond (
      finish audit_id none (failure_record audit_id scope (a_request request) scope_denied none)
        (failure_response audit_id (some doc) scope_denied) s)
  scope_step request doc decision audit_reviewer s = respond (
      finish audit_id none (failure_record audit_id scope (a_request request) scope_denied none)
        (failure_response audit_id (some doc) scope_denied) s)

  abbrev pub document_step :
      RestorationRequest
      → Option Text
      → Option PolicyDecision
      → State
      → Option RestorationResponse × State
  document_step request none decision s = respond (
      finish audit_id none
        (failure_record audit_id scope (a_request request) request_schema_invalid none)
        (failure_response audit_id none request_schema_invalid) s)
  document_step request (some doc) decision s = scope_step request doc decision scope s

  -- `restoration_request`. No response is a `KeyError` of the policy table.
  unfoldable pub restoration_request :
      Input → Option PolicyTable → State → Option RestorationResponse × State
  unfolding finish permitted_step document_of evaluate
  restoration_request not_a_request table s = respond (
      finish audit_id none (failure_record audit_id scope not_a_request request_schema_invalid none)
        (failure_response audit_id none request_schema_invalid) s)
  restoration_request (a_request request) table s =
      document_step request (document_of request.target)
        (decide fullmatch (effective_policy table) request) s
