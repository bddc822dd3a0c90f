-- ===== src/Examples/Requests.antt =====
-- Concrete requests, with the theorems on the boundary and the policy.
use yomotsusaka.Prelude.{
  Text, codes, eq_text, starts_with, break_at, strip_prefix?, true, false, none, some, List, [],
  ◌∷◌, ◌≡◌, ◌↔◌, refl, keep, length, ok,
}
use yomotsusaka.Schemas.{person, org, PrivateDictEntry, DocumentManifest}
use yomotsusaka.Charset.{is_name, is_name_char, is_traversal}
use yomotsusaka.Redactor.{Redaction, redact, make_key}
use yomotsusaka.Redactor.Reveal.{reveal}
use yomotsusaka.Validator.{validate}
use yomotsusaka.Validator.Spec.{IsClean}
use yomotsusaka.Vault.{Disk, manifest_path, private_path, commit, write_text}
use yomotsusaka.Pipeline.{
  manifest_for, prepare, validate_doc_id, stem_of, upper, choose_spans, process_document,
}
use yomotsusaka.Policy.{
  PolicyRow, PolicyRequest, PolicyTable, PolicyDecision, permit, build_table, default_local,
  default_local_row, find_row, index_rows, evaluate,
}
use yomotsusaka.Policy.Verdicts.{Governs, Meets, evaluate_iff}
use yomotsusaka.Boundary.Locator.{ParsedLocator, build_locator, parse_locator}
use yomotsusaka.Boundary.Locator.Laws.{parse_locator-build_locator, build_locator-parse_locator}
use yomotsusaka.Boundary.Resolver.{
  private_boundary, ordinary_agent, ResolverSuccess, success, succeed, resolve, is_blank,
  handle_parts, inspect_request, inspected, from_manifest, status_report_request, committed,
  process_document_request, public_handle_for,
}
use yomotsusaka.Boundary.Resolver.Laws.{Resolves, resolve-Resolves}
use yomotsusaka.Boundary.Resolver.Processed.{process_document_request_found}
use yomotsusaka.Boundary.Restoration.{
  target_public_handle, RestorationRequest, make_request, a_request, RestorationResponse, audited,
  kernel_called, State, matches, document_of, decide, effective_policy, accepted_response,
  accepted_record, failure_response, failure_record, scope_denied, restoration_request,
  append_audit, finish,
}
use yomotsusaka.Boundary.Restoration.Audit.{Logged, restoration_request-Logged}
use yomotsusaka.Boundary.Restoration.Gate.{Course, restoration_request-Course}
use yomotsusaka.Boundary.Restoration.Restored.{restoration_request-granted}
use yomotsusaka.Examples.Wire.{codec, codec-IsLawful}
use yomotsusaka.Examples.Documents.{
  hexdigest, letter, letter_spans, letter_spans-IsForward, vault, empty_disk, same_path,
}

abbrev memo : ParsedLocator
memo = handle_parts (codes "memo.1")

abbrev memo_locator : Text
memo_locator = codes "private://agent_redacted/manifest/memo.1"

memo_built : build_locator memo ≡ ok memo_locator
unfolding build_locator eq_text is_name is_name_char is_traversal
memo_built = refl

parse_locator-build_locator_example : parse_locator memo_locator ≡ some memo
parse_locator-build_locator_example = parse_locator-build_locator memo memo_locator memo_built

memo_parsed : parse_locator memo_locator ≡ some memo
memo_parsed = parse_locator-build_locator memo memo_locator memo_built

build_locator-parse_locator_example : build_locator memo ≡ ok memo_locator
build_locator-parse_locator_example = build_locator-parse_locator memo_locator memo memo_parsed

letter_answered :
    (process_document_request hexdigest codec
      (codes "memo.1")
      letter
      letter_spans
      vault
      empty_disk).0
    ≡ ok memo_locator
unfolding process_document_request public_handle_for build_locator process_document prepare
    validate_doc_id is_name is_name_char is_traversal stem_of upper eq_text choose_spans redact
    make_key validate commit write_text
letter_answered = refl

audit_stated : is_blank (codes "audit") ≡ false
unfolding is_blank
audit_stated = refl

abbrev letter_disk : Disk
letter_disk =
    (process_document_request hexdigest codec (codes "memo.1") letter letter_spans vault
      empty_disk).1

process_document_request_found_example :
    (r : Redaction) × IsClean (manifest_for (codes "memo.1") r) r.private_dict
    × (reveal r ≡ letter)
    × (resolve codec memo_locator private_boundary (codes "audit") vault letter_disk
        ≡ succeed memo_locator memo (codes "audit") (
            some (record {
              manifest_path = manifest_path vault (codes "memo.1");
              private_dict_path = private_path vault (codes "memo.1");
              private_entries = r.private_dict;
            })))
    × (inspect_request codec memo_locator (codes "audit") vault letter_disk
        ≡ inspected (from_manifest (manifest_for (codes "memo.1") r)))
    × (status_report_request memo_locator vault letter_disk ≡ committed)
process_document_request_found_example =
    process_document_request_found hexdigest codec (codes "memo.1") letter letter_spans vault
      empty_disk memo_locator (codes "audit") codec-IsLawful audit_stated letter_spans-IsForward
      letter_answered

-- A vault that holds one manifest and its dictionary.
abbrev stored : List PrivateDictEntry
stored =
    record { key = codes "<PERSON_00000000>"; original_value = codes "Ann"; kind = person }
    ∷ record { key = codes "<ORG_00000000>"; original_value = codes "Acme"; kind = org }
    ∷ []

abbrev memo_manifest : DocumentManifest
memo_manifest = record {
  doc_id = codes "memo.1";
  source_ref = codes "memo.1";
  redacted_text = codes "<PERSON_00000000> of <ORG_00000000>";
  entities = [];
  labels = [];
  summary = [];
}

abbrev disk : Disk
disk = (commit codec memo_manifest stored vault empty_disk).1

abbrev found : ResolverSuccess
found = record {
  locator = memo_locator;
  parsed = memo;
  purpose = codes "audit";
  private_state = none;
}

memo_resolved : resolve codec memo_locator ordinary_agent (codes "audit") vault disk ≡ success found
unfolding resolve is_blank parse_locator eq_text starts_with break_at strip_prefix? is_name
    is_name_char is_traversal commit write_text
memo_resolved = refl

resolve-Resolves_example :
    Resolves codec memo_locator ordinary_agent (codes "audit") vault disk found
resolve-Resolves_example =
    resolve-Resolves codec memo_locator (codes "audit") vault disk found ordinary_agent
      memo_resolved

abbrev plain : PolicyRequest
plain = record {
  policy_profile = none;
  production_scope = none;
  authorization_decision = none;
  approval_ticket = none;
}

abbrev pub people_of_memo : RestorationRequest
people_of_memo = record {
  caller_label = codes "reviewer";
  target = target_public_handle memo_locator;
  requested_keys = [];
  requested_entity_kinds = person ∷ [];
  reason = codes "audit";
  reserved = plain;
}

request_made :
    make_request
      (codes "reviewer")
      (some memo_locator)
      none
      []
      (person ∷ [])
      (codes "audit")
      true
      plain
    ≡ ok people_of_memo
unfolding make_request is_blank
request_made = refl

memo_found : document_of (target_public_handle memo_locator) ≡ some (codes "memo.1")
unfolding document_of parse_locator eq_text starts_with break_at strip_prefix? is_name is_name_char
    is_traversal
memo_found = refl

abbrev ann : PrivateDictEntry
ann = record { key = codes "<PERSON_00000000>"; original_value = codes "Ann"; kind = person }

abbrev pub start : State
start = record { disk = disk; trace = []; faults = [] }

abbrev decision : PolicyDecision
decision = record { verdict = permit; matched_profile = codes "_default_local"; deny_reason = none }

memo_stored : disk.files (private_path vault (codes "memo.1")) ≡ some (codec.dump_entries stored)
unfolding commit write_text eq_text
memo_stored = refl

memo_permitted : decide eq_text (effective_policy none) people_of_memo ≡ some decision
unfolding evaluate default_local eq_text
memo_permitted = refl

restoration_request-granted_example :
    let entries = keep (matches people_of_memo) stored in
    let intent = accepted_record (codes "a1") private_boundary people_of_memo none decision in
    let result =
      accepted_record
        (codes "a1")
        private_boundary
        people_of_memo
        (some (length entries))
        decision in
    restoration_request codec eq_text same_path vault
      (codes "a1")
      private_boundary
      (a_request people_of_memo)
      none
      start
    ≡ (
      some (accepted_response (codes "a1") (codes "memo.1") entries),
      record start {
        trace = audited result ∷ kernel_called (codes "memo.1") ∷ audited intent ∷ [];
      },
    )
restoration_request-granted_example =
    restoration_request-granted codec eq_text same_path vault (codes "a1") none disk []
      people_of_memo (codes "memo.1") decision stored codec-IsLawful refl refl memo_stored
      memo_found memo_permitted refl

abbrev pub refusal : RestorationResponse
refusal = failure_response (codes "a1") (some (codes "memo.1")) scope_denied

abbrev pub refused_state : State
refused_state = record start {
  trace =
      audited
        (failure_record (codes "a1") ordinary_agent (a_request people_of_memo) scope_denied none)
      ∷ [];
}

pub agent_refused :
    restoration_request codec eq_text same_path vault
      (codes "a1")
      ordinary_agent
      (a_request people_of_memo)
      none
      start
    ≡ (some refusal, refused_state)
unfolding restoration_request document_of parse_locator eq_text starts_with break_at strip_prefix?
    is_name is_name_char is_traversal finish append_audit
agent_refused = refl

restoration_request-Logged_example : Logged (refusal, refused_state)
restoration_request-Logged_example =
    restoration_request-Logged codec eq_text same_path vault (codes "a1") ordinary_agent none start
      (a_request people_of_memo) refusal refused_state agent_refused

restoration_request-Course_example :
    Course codec eq_text same_path vault
      (codes "a1")
      ordinary_agent
      none
      start
      (a_request people_of_memo)
      (refusal, refused_state)
restoration_request-Course_example =
    restoration_request-Course codec eq_text same_path vault (codes "a1") ordinary_agent none start
      (a_request people_of_memo) refusal refused_state agent_refused

-- A table with a strict row beside the default one.
abbrev strict_row : PolicyRow
strict_row = record {
  profile_name = codes "prod";
  production_scopes = codes "prod" ∷ [];
  require_authorization_decision = true;
  approval_ticket_pattern = some (codes "T-1");
  default = false;
}

abbrev rows : List PolicyRow
rows = strict_row ∷ default_local_row ∷ []

abbrev table : PolicyTable
table = record {
  rows_by_name = rows;
  default_name = codes "_default_local";
  route_unknown_to_default = false;
}

table_built : build_table rows false ≡ ok table
unfolding build_table index_rows find_row eq_text
table_built = refl

abbrev ticketed : PolicyRequest
ticketed = record {
  policy_profile = some (codes "prod");
  production_scope = some (codes "prod");
  authorization_decision = some tt;
  approval_ticket = some (codes "T-1");
}

evaluate_iff_example :
    (decision : PolicyDecision) × (evaluate eq_text table ticketed ≡ some decision)
    × ((decision.verdict ≡ permit) ↔ (
        (row : PolicyRow) × Governs eq_text table (some (codes "prod")) row
        × Meets eq_text row ticketed))
evaluate_iff_example = evaluate_iff eq_text rows false table table_built ticketed
