-- ===== src/Examples/Executions.antt =====
-- A registry with one template, a caller on each side of the gate, and the theorems on the dispatcher.
use yomotsusaka.Prelude.{
  Text, codes, eq_text, starts_with, contains, true, some, [], ◌∷◌, ◌++◌, ◌≡◌, refl, strip_prefix?,
  break_at,
}
use yomotsusaka.Charset.{is_name, is_name_char, is_traversal}
use yomotsusaka.Vault.{commit, write_text}
use yomotsusaka.Scrubber.{
  scrub_stream, mask_values, mask_from, match_vault_path, match_dirs, match_name, find_end,
  run_length, recheck, sort_entries, replace_from,
}
use yomotsusaka.Boundary.Locator.{parse_locator, split_locator}
use yomotsusaka.Boundary.Resolver.{
  ResolverFailureReason, resolve, resolve_parsed, materialise, is_blank,
}
use yomotsusaka.Audit.{AuditRecord, Log, write_record}
use yomotsusaka.Execution.{
  private_boundary, text_value, ExecutionRequest, a_request, accepted, returned, TemplateSpec,
  find_template,
}
use yomotsusaka.Execution.Dispatch.{execute_request, emit_failure, invoke_step}
use yomotsusaka.Execution.Gate.{Clean, execute_request-Clean}
use yomotsusaka.Examples.Wire.{codec}
use yomotsusaka.Examples.Documents.{vault, committed_disk}

-- A template that prints a private value.
abbrev careless : TemplateSpec
careless = record {
  name = codes "careless";
  fn = λ request state root d.
      (returned (record { artifact_handles = []; stdout = codes "for Ann"; stderr = [] }), d);
  min_scope = private_boundary;
  requires_locator_input = true;
}

abbrev memo_handle : Text
memo_handle = codes "private://agent_redacted/manifest/memo.1"

abbrev request : ExecutionRequest
request = record {
  job_name = codes "careless";
  purpose = codes "test";
  inputs = λ name. some (text_value memo_handle);
}

abbrev pub dump : AuditRecord → Text
dump r = codes "{" ++ (r.outcome ++ codes "}")

abbrev pub repr_of : Text → Text
repr_of t = codes "'" ++ (t ++ codes "'")

abbrev pub detail_of : ResolverFailureReason → Text
detail_of reason = codes "no committed manifest for this locator"

abbrev pub log : Log
log = record { disk = committed_disk; events = []; faults = [] }

careless-accepted :
    (execute_request dump repr_of codec detail_of
      (careless ∷ [])
      vault
      (codes "id")
      private_boundary
      (a_request request)
      log).0.status
    ≡ accepted
unfolding execute_request emit_failure invoke_step find_template resolve resolve_parsed materialise
    is_blank parse_locator split_locator eq_text starts_with contains is_name is_name_char
    is_traversal commit write_text write_record scrub_stream mask_values mask_from match_vault_path
    match_dirs match_name find_end run_length recheck sort_entries replace_from strip_prefix?
    break_at
careless-accepted = refl

execute_request-Clean_example :
    Clean dump repr_of codec detail_of
      (careless ∷ [])
      vault
      (codes "id")
      private_boundary
      log
      (a_request request)
      (execute_request dump repr_of codec detail_of
        (careless ∷ [])
        vault
        (codes "id")
        private_boundary
        (a_request request)
        log).0
execute_request-Clean_example =
    execute_request-Clean dump repr_of codec detail_of (careless ∷ []) vault (codes "id")
      private_boundary log (a_request request) careless-accepted
