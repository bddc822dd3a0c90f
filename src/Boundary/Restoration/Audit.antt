-- ===== src/Boundary/Restoration/Audit.antt =====
-- The response and the last record of the audit log say the same.
use yomotsusaka.Prelude.{
  ℕ, Text, Bool, Option, none, some, List, ◌∷◌, length, keep, ◌≡◌, ◌≢◌, inl, inr, refl, subst, sym,
  Result, ok, err, Bool-cases, if◌then◌else◌,
}
use yomotsusaka.Schemas.{PrivateDictEntry}
use yomotsusaka.Vault.{
  FilePath, VaultError, os_error, outside_vault, unreadable, no_private_data, Codec, restore,
}
use yomotsusaka.Policy.{PolicyTable, PolicyDecision}
use yomotsusaka.Boundary.Resolver.{ResolverScope}
use yomotsusaka.Boundary.Restoration.{
  RestorationRequest, Input, a_request, audit_write_failed, AuditRecord, failed,
  RestorationResponse, Event, audited, kernel_called, State, emit, write_fault, classify, matches,
  failure_response, accepted_response, failure_record, accepted_record, finish, kernel_result,
  kernel_handle, call_kernel, restoration_request,
}
use yomotsusaka.Boundary.Restoration.Exits.{
  past_write, append_audit-fault, append_audit-written, Exit, refused_before, intent_unwritten,
  reached, restoration_request-Exit,
}

abbrev pub count_of : Option (List PrivateDictEntry) → Option ℕ
count_of none = none
count_of (some entries) = some (length entries)

-- A record tells what a response says.
pub record Agrees (r : AuditRecord) (response : RestorationResponse) : Type 0 where
  pub same_id : r.audit_record_id ≡ response.audit_record_id
  pub same_outcome : r.outcome ≡ response.outcome
  pub same_reason : r.failure_reason ≡ response.reason
  pub same_count : r.returned_entry_count ≡ count_of response.private_entries

-- The newest event is a record that agrees with the response, or the response says that a record
-- could not be written, and carries nothing.
pub data Logged : RestorationResponse × State → Type 0 where
  logged :
      (response : RestorationResponse) (s : State) (r : AuditRecord) (earlier : List Event)
      → s.trace ≡ audited r ∷ earlier
      → Agrees r response
      → response.reason ≢ some audit_write_failed
      → Logged (response, s)
  unwritten :
      (response : RestorationResponse) (s : State)
      → response.reason ≡ some audit_write_failed
      → response.outcome ≡ failed
      → response.private_entries ≡ none
      → Logged (response, s)

classify-told : (e : VaultError) → classify e ≢ audit_write_failed
classify-told os_error h = cc
classify-told outside_vault h = cc
classify-told unreadable h = cc
classify-told (no_private_data doc) h = cc

module _ (audit_id : Text) where
  finish-Logged :
      (early : Option Text) (r : AuditRecord) (response : RestorationResponse) (s : State)
      → Agrees r response
      → response.reason ≢ some audit_write_failed
      → Logged (finish audit_id early r response s)
  unfolding finish
  finish-Logged early r response s agrees told =
      let step : Bool × State → RestorationResponse × State = λ out.
        (if out.0 then response else failure_response audit_id early audit_write_failed, out.1) in
      elim (Bool-cases (write_fault s.faults)) [
        | inl f ↦
            subst (λ out. Logged (step out)) (sym (append_audit-fault r s f))
              (unwritten _ _ refl refl refl)
        | inr f ↦
            subst (λ out. Logged (step out)) (sym (append_audit-written r s f))
              (logged response _ r s.trace refl agrees told)
      ]

  module _ (scope : ResolverScope) where
    kernel_result-Logged :
        (request : RestorationRequest) (doc : Text) (decision : PolicyDecision) (s : State)
        (out : Result VaultError (List PrivateDictEntry))
        → Logged (kernel_result audit_id scope request doc decision s out)
    kernel_result-Logged request doc decision s (err e) =
        finish-Logged (some doc)
          (failure_record audit_id scope (a_request request) (classify e) (some decision))
          (failure_response audit_id (some doc) (classify e)) s
          (record { same_id = refl; same_outcome = refl; same_reason = refl; same_count = refl })
          (λ h. classify-told e (cc))
    kernel_result-Logged request doc decision s (ok entries) =
        let filtered = keep (matches request) entries in
        finish-Logged (some doc)
          (accepted_record audit_id scope request (some (length filtered)) decision)
          (accepted_response audit_id doc filtered) s
          (record { same_id = refl; same_outcome = refl; same_reason = refl; same_count = refl })
          (λ h. cc)

module _ (codec : Codec) (fullmatch : Text → Text → Bool) (resolve : FilePath → FilePath)
    (root : FilePath) (audit_id : Text) (scope : ResolverScope) (table : Option PolicyTable)
    (s : State) where
  Exit-Logged :
      (input : Input) (out : RestorationResponse × State)
      → Exit codec fullmatch resolve root audit_id scope table s input out
      → Logged out
  unfolding call_kernel
  Exit-Logged _ _ (refused_before input doc early reason decision told) =
      finish-Logged audit_id early (failure_record audit_id scope input reason decision)
        (failure_response audit_id doc reason) s
        (record { same_id = refl; same_outcome = refl; same_reason = refl; same_count = refl })
        (λ h. told (cc))
  Exit-Logged _ _ (intent_unwritten request doc) = unwritten _ _ refl refl refl
  Exit-Logged _ _ (reached request doc decision _ _ _ _) =
      let s' =
        emit (audited (accepted_record audit_id scope request none decision)) (past_write s) in
      kernel_result-Logged audit_id scope request doc decision (emit (kernel_called doc) s')
        (restore codec resolve (kernel_handle resolve root doc) root s'.disk)

  -- Whenever `restoration_request` responds, the newest event is an audit record with the
  -- response's id, outcome, failure reason and number of entries, or else the response failed
  -- because a record could not be written, and carries no entry.
  pub restoration_request-Logged :
      (input : Input) (response : RestorationResponse) (s' : State)
      → restoration_request codec fullmatch resolve root audit_id scope input table s
        ≡ (some response, s')
      → Logged (response, s')
  restoration_request-Logged input response s' e =
      Exit-Logged input (response, s')
        (restoration_request-Exit codec fullmatch resolve root audit_id scope table s input response
          s' e)
