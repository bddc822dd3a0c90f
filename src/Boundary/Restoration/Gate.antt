-- ===== src/Boundary/Restoration/Gate.antt =====
-- Who reaches the kernel, and what is given back.
use yomotsusaka.Prelude.{
  Text, Bool, Option, none, some, List, ◌∷◌, length, keep, ◌≡◌, ◌⊎◌, inl, inr, refl, subst, sym, ap,
  Result, ok, err, Bool-cases, if◌then◌else◌,
}
use yomotsusaka.Schemas.{PrivateDictEntry}
use yomotsusaka.Vault.{FilePath, VaultError, Codec, restore}
use yomotsusaka.Policy.{PolicyTable, PolicyDecision, permit}
use yomotsusaka.Boundary.Resolver.{ResolverScope, private_boundary}
use yomotsusaka.Boundary.Restoration.{
  RestorationRequest, Input, a_request, audit_write_failed, AuditRecord, RestorationResponse, Event,
  audited, kernel_called, State, emit, write_fault, classify, matches, document_of, decide,
  effective_policy, failure_response, accepted_response, failure_record, accepted_record, finish,
  kernel_result, kernel_handle, call_kernel, restoration_request,
}
use yomotsusaka.Boundary.Restoration.Exits.{
  past_write, append_audit-fault, append_audit-written, Exit, refused_before, intent_unwritten,
  reached, restoration_request-Exit,
}

-- Nothing but one audit record at most stands before the older events.
abbrev pub AtMostOneRecord : List Event → List Event → Type 0
AtMostOneRecord new old = (new ≡ old) ⊎ ((r : AuditRecord) × (new ≡ audited r ∷ old))

module _ (audit_id : Text) where
  -- A way out adds a record at most, and answers as meant or with nothing.
  finish_adds :
      (early : Option Text) (r : AuditRecord) (response : RestorationResponse) (s : State)
      → let out = finish audit_id early r response s in
        AtMostOneRecord out.1.trace s.trace
        × (out.1.disk ≡ s.disk)
        × ((out.0.private_entries ≡ none) ⊎ (out.0 ≡ response))
  unfolding finish
  finish_adds early r response s =
      let step : Bool × State → RestorationResponse × State = λ out.
        (if out.0 then response else failure_response audit_id early audit_write_failed, out.1) in
      let Fine : RestorationResponse × State → Type 0 = λ out.
        AtMostOneRecord out.1.trace s.trace
        × (out.1.disk ≡ s.disk)
        × ((out.0.private_entries ≡ none) ⊎ (out.0 ≡ response)) in
      elim (Bool-cases (write_fault s.faults)) [
        | inl f ↦
            subst (λ out. Fine (step out)) (sym (append_audit-fault r s f))
              (inl refl, refl, inl refl)
        | inr f ↦
            subst (λ out. Fine (step out)) (sym (append_audit-written r s f))
              (inr (r, refl), refl, inr refl)
      ]

module _ (codec : Codec) (fullmatch : Text → Text → Bool) (resolve : FilePath → FilePath)
    (root : FilePath) (audit_id : Text) (scope : ResolverScope) (table : Option PolicyTable)
    (s : State) where
  -- What may be given back: nothing, or what the kernel read and the request asked for.
  abbrev pub Given : RestorationRequest → Text → Option (List PrivateDictEntry) → Type 0
  Given request doc given =
      (given ≡ none)
      ⊎ ((entries : List PrivateDictEntry) × (restore codec resolve (kernel_handle resolve root doc)
              root s.disk
            ≡ ok entries)
          × (given ≡ some (keep (matches request) entries)))

  pub data Course : Input → RestorationResponse × State → Type 0 where
    kept_out :
        (input : Input) (response : RestorationResponse) (s' : State)
        → AtMostOneRecord s'.trace s.trace
        → s'.disk ≡ s.disk
        → response.private_entries ≡ none
        → Course input (response, s')
    let_in :
        (request : RestorationRequest) (doc : Text) (decision : PolicyDecision)
        (response : RestorationResponse) (s' : State)
        → scope ≡ private_boundary
        → document_of request.target ≡ some doc
        → decide fullmatch (effective_policy table) request ≡ some decision
        → decision.verdict ≡ permit
        → AtMostOneRecord s'.trace (
            kernel_called doc
            ∷ audited (accepted_record audit_id scope request none decision)
            ∷ s.trace)
        → s'.disk ≡ s.disk
        → Given request doc response.private_entries
        → Course (a_request request) (response, s')

  kernel_result_gives :
      (request : RestorationRequest) (doc : Text) (decision : PolicyDecision) (q : State)
      (out : Result VaultError (List PrivateDictEntry))
      → restore codec resolve (kernel_handle resolve root doc) root s.disk ≡ out
      → let left = kernel_result audit_id scope request doc decision q out in
        AtMostOneRecord left.1.trace q.trace
        × (left.1.disk ≡ q.disk)
        × Given request doc left.0.private_entries
  kernel_result_gives request doc decision q (err e) h =
      let response = failure_response audit_id (some doc) (classify e) in
      let (t, d, w) =
        finish_adds audit_id (some doc)
          (failure_record audit_id scope (a_request request) (classify e) (some decision)) response
          q in
      (
        t,
        d,
        elim w [
          | inl n ↦ inl n
          | inr same ↦ inl (ap (λ (r : RestorationResponse). r.private_entries) same)
        ],
      )
  kernel_result_gives request doc decision q (ok entries) h =
      let filtered = keep (matches request) entries in
      let response = accepted_response audit_id doc filtered in
      let (t, d, w) =
        finish_adds audit_id (some doc)
          (accepted_record audit_id scope request (some (length filtered)) decision) response q in
      (
        t,
        d,
        elim w [
          | inl n ↦ inl n
          | inr same ↦ inr (entries, h, ap (λ (r : RestorationResponse). r.private_entries) same)
        ],
      )

  Exit-Course :
      (input : Input) (out : RestorationResponse × State)
      → Exit codec fullmatch resolve root audit_id scope table s input out
      → Course input out
  unfolding call_kernel
  Exit-Course _ _ (refused_before input doc early reason decision told) =
      let response = failure_response audit_id doc reason in
      let r = failure_record audit_id scope input reason decision in
      let (t, d, w) = finish_adds audit_id early r response s in
      let out = finish audit_id early r response s in
      kept_out input out.0 out.1 t d
        (elim w [ inl n ↦ n | inr same ↦ ap (λ (x : RestorationResponse). x.private_entries) same ])
  Exit-Course _ _ (intent_unwritten request doc) = kept_out _ _ _ (inl refl) refl refl
  Exit-Course _ _ (reached request doc decision inside found decided permits) =
      let q =
        emit (kernel_called doc)
          (emit (audited (accepted_record audit_id scope request none decision)) (past_write s)) in
      let read = restore codec resolve (kernel_handle resolve root doc) root s.disk in
      let (t, d, given) = kernel_result_gives request doc decision q read refl in
      let out = kernel_result audit_id scope request doc decision q read in
      let_in request doc decision out.0 out.1 inside found decided permits t d given

  -- Whenever `restoration_request` responds, one of two things is true. Either at most one audit
  -- record was added, the kernel was not called and the response carries no entry. Or the caller's
  -- scope is the private boundary, the request names a document, the policy's decision is a
  -- permit, the intent was on record before the kernel was called and at most one record came
  -- after it, and the response carries nothing or exactly the entries of the restored dictionary
  -- that match the request. The disk stays as it was in both cases.
  pub restoration_request-Course :
      (input : Input) (response : RestorationResponse) (s' : State)
      → restoration_request codec fullmatch resolve root audit_id scope input table s
        ≡ (some response, s')
      → Course input (response, s')
  restoration_request-Course input response s' e =
      Exit-Course input (response, s')
        (restoration_request-Exit codec fullmatch resolve root audit_id scope table s input response
          s' e)
