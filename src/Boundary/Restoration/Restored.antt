-- ===== src/Boundary/Restoration/Restored.antt =====
-- A permitted request for a committed document is granted.
use yomotsusaka.Prelude.{
  Text, codes, Bool, false, Option, none, some, List, [], ◌∷◌, ◌++◌, length, keep, ◌≡◌, refl, ap,
  ◌∙◌, ok,
}
use yomotsusaka.Schemas.{PrivateDictEntry}
use yomotsusaka.Vault.{FilePath, Codec, IsLawful, Disk, private_path, restore, read_entries}
use yomotsusaka.Vault.Laws.{is_under_private}
use yomotsusaka.Policy.{PolicyTable, PolicyDecision, permit, default_local}
use yomotsusaka.Policy.Default.{evaluate-local_table}
use yomotsusaka.Boundary.Resolver.{private_boundary}
use yomotsusaka.Boundary.Restoration.{
  RestorationRequest, a_request, AuditRecord, RestorationResponse, Event, audited, kernel_called,
  State, emit, write_fault, matches, document_of, decide, effective_policy, accepted_response,
  accepted_record, finish, kernel_handle, call_kernel, permitted_step, decided_step, respond,
  restoration_request,
}
use yomotsusaka.Boundary.Restoration.Exits.{past_write, append_audit-written}

module _ (codec : Codec) (resolve : FilePath → FilePath) (root : FilePath) (doc : Text) where
  -- What `restore` reads through the handle that the boundary makes up.
  restore-kernel_handle :
      (es : List PrivateDictEntry) (d : Disk)
      → IsLawful codec
      → resolve (root ++ codes "private" ∷ []) ≡ root ++ codes "private" ∷ []
      → resolve (private_path root doc) ≡ private_path root doc
      → d.files (private_path root doc) ≡ some (codec.dump_entries es)
      → restore codec resolve (kernel_handle resolve root doc) root d ≡ ok es
  unfolding restore
  restore-kernel_handle es d lawful top path stored =
      let under = is_under_private root (doc ++ codes ".json") in
      rw (path, top, path, under, stored, read_entries, lawful.entries es)

module _ (audit_id : Text) where
  finish-written :
      (early : Option Text) (r : AuditRecord) (response : RestorationResponse) (s : State)
      → write_fault s.faults ≡ false
      → finish audit_id early r response s ≡ (response, emit (audited r) (past_write s))
  unfolding finish
  finish-written early r response s f = rw (append_audit-written r s f)

module _ (codec : Codec) (fullmatch : Text → Text → Bool) (resolve : FilePath → FilePath)
    (root : FilePath) (audit_id : Text) (table : Option PolicyTable) (disk : Disk)
    (trace : List Event) where
  abbrev start : State
  start = record { disk = disk; trace = trace; faults = [] }

  permitted_step-granted :
      (request : RestorationRequest) (doc : Text) (decision : PolicyDecision)
      (es : List PrivateDictEntry)
      → IsLawful codec
      → resolve (root ++ codes "private" ∷ []) ≡ root ++ codes "private" ∷ []
      → resolve (private_path root doc) ≡ private_path root doc
      → disk.files (private_path root doc) ≡ some (codec.dump_entries es)
      → let entries = keep (matches request) es in
        let intent = accepted_record audit_id private_boundary request none decision in
        let result =
          accepted_record audit_id private_boundary request (some (length entries)) decision in
        permitted_step codec fullmatch resolve root audit_id private_boundary request doc decision
          start
        ≡ (
          accepted_response audit_id doc entries,
          record start { trace = audited result ∷ kernel_called doc ∷ audited intent ∷ trace },
        )
  unfolding permitted_step call_kernel
  permitted_step-granted request doc decision es lawful top path stored =
      let entries = keep (matches request) es in
      let intent = accepted_record audit_id private_boundary request none decision in
      let result =
        accepted_record audit_id private_boundary request (some (length entries)) decision in
      let s : State = record start { trace = kernel_called doc ∷ audited intent ∷ trace } in
      rw (restore-kernel_handle codec resolve root doc es disk lawful top path stored)
        (finish-written audit_id (some doc) result (accepted_response audit_id doc entries) s refl)

  -- If the codec is lawful, the vault's own two paths are resolved already, the dictionary of the
  -- document that the request names is on the disk, the policy permits the request and no write to
  -- the audit log fails, then a request of the private boundary is granted: the response holds the
  -- entries that match the request, and the log gets the intent, then the kernel is called, then
  -- the log gets the number of entries.
  pub restoration_request-granted :
      (request : RestorationRequest) (doc : Text) (decision : PolicyDecision)
      (es : List PrivateDictEntry)
      → IsLawful codec
      → resolve (root ++ codes "private" ∷ []) ≡ root ++ codes "private" ∷ []
      → resolve (private_path root doc) ≡ private_path root doc
      → disk.files (private_path root doc) ≡ some (codec.dump_entries es)
      → document_of request.target ≡ some doc
      → decide fullmatch (effective_policy table) request ≡ some decision
      → decision.verdict ≡ permit
      → let entries = keep (matches request) es in
        let intent = accepted_record audit_id private_boundary request none decision in
        let result =
          accepted_record audit_id private_boundary request (some (length entries)) decision in
        restoration_request codec fullmatch resolve root audit_id private_boundary
          (a_request request)
          table
          start
        ≡ (
          some (accepted_response audit_id doc entries),
          record start { trace = audited result ∷ kernel_called doc ∷ audited intent ∷ trace },
        )
  unfolding restoration_request
  restoration_request-granted request doc decision es lawful top path stored found decided permits =
      rw (found, decided)
        (ap
            (λ v. respond (
              decided_step codec fullmatch resolve root audit_id private_boundary request doc
                decision v start))
            permits
          ∙ ap respond (permitted_step-granted request doc decision es lawful top path stored))

-- Without a policy table every request is permitted: the built-in table decides, and the decision
-- is a permit, whatever profile, scope, decision and ticket the request gives.
pub default_policy_permits :
    (fullmatch : Text → Text → Bool) (request : RestorationRequest)
    → (decision : PolicyDecision) × (decide fullmatch (effective_policy none) request
        ≡ some decision)
      × (decision.verdict ≡ permit)
unfolding default_local
default_policy_permits fullmatch request = evaluate-local_table fullmatch request.reserved
