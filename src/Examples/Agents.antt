-- ===== src/Examples/Agents.antt =====
-- A letter to a person who is known to the vault, and an agent who asks the facade for more.
use yomotsusaka.Prelude.{
  ℕ, Text, codes, eq_text, starts_with, contains, strip_prefix?, break_at, Option, none, some, [],
  ◌∷◌, ◌≡◌, refl, if◌then◌else◌, ◌+◌,
}
use yomotsusaka.Charset.{is_name, is_name_char, is_traversal}
use yomotsusaka.Redactor.{redact, make_key, sort_spans}
use yomotsusaka.Validator.{validate}
use yomotsusaka.Vault.{Disk, manifest_path, private_path, commit, write_text}
use yomotsusaka.Pipeline.{prepare, validate_doc_id, stem_of, upper, choose_spans, process_document}
use yomotsusaka.Scrubber.{
  scrub_stream, mask_values, mask_from, match_vault_path, match_dirs, match_name, find_end,
  run_length, recheck, sort_entries, replace_from,
}
use yomotsusaka.Boundary.Locator.{parse_locator, split_locator, build_locator}
use yomotsusaka.Boundary.Resolver.{PrivateState, public_handle_for}
use yomotsusaka.Execution.{
  InputValue, text_value, ExecutionRequest, a_request, TemplateResult, returned,
}
use yomotsusaka.Execution.Gate.{RanNothing}
use yomotsusaka.Boundary.Restoration as Restoration
use yomotsusaka.Templates.{
  parsed_target, new_artifact_id, key_to_raw, render, generate_letter_from_private_template,
  registered_templates,
}
use yomotsusaka.Templates.Letters.{CleanLetter, generate_letter-CleanLetter}
use yomotsusaka.Facade.{LocalFacade, execute}
use yomotsusaka.Facade.Reach.{KeptOut, request_restore-KeptOut, execute-RanNothing}
use yomotsusaka.Examples.Wire.{codec}
use yomotsusaka.Examples.Documents.{hexdigest, vault, same_path, stored, committed_disk}
use yomotsusaka.Examples.Requests.{people_of_memo, start, refusal, refused_state, agent_refused}
use yomotsusaka.Examples.Executions.{dump, repr_of, detail_of, log}

abbrev memo_handle : Text
memo_handle = codes "private://agent_redacted/manifest/memo.1"

abbrev letter_inputs : Text → Option InputValue
letter_inputs name = some (
    text_value (
      if eq_text name (codes "template_body")
      then codes "Dear <PERSON_00000000>,"
      else memo_handle))

abbrev letter_request : ExecutionRequest
letter_request = record {
  job_name = codes "generate_letter_from_private_template";
  purpose = codes "test";
  inputs = letter_inputs;
}

abbrev memo_state : PrivateState
memo_state = record {
  manifest_path = manifest_path vault (codes "memo.1");
  private_dict_path = private_path vault (codes "memo.1");
  private_entries = stored;
}

abbrev decimal : ℕ → Text
decimal n = (b'0' + n) ∷ []

abbrev suffix : Text
suffix = codes "0123456789ab"

abbrev sent : TemplateResult
sent = record {
  artifact_handles = codes "private://agent_redacted/manifest/letter-memo-1-0123456789ab" ∷ [];
  stdout = codes "rendered letter with 1 substitution(s)";
  stderr = [];
}

abbrev after_letter : Disk
after_letter =
    (generate_letter_from_private_template hexdigest codec decimal suffix letter_request
      (some memo_state) vault committed_disk).1

letter_returned :
    generate_letter_from_private_template hexdigest codec decimal suffix letter_request
      (some memo_state)
      vault
      committed_disk
    ≡ (returned sent, after_letter)
unfolding generate_letter_from_private_template new_artifact_id key_to_raw render replace_from
    scrub_stream mask_values mask_from match_vault_path match_dirs match_name find_end run_length
    recheck sort_entries parse_locator split_locator build_locator public_handle_for eq_text
    starts_with contains strip_prefix? break_at is_name is_name_char is_traversal process_document
    prepare validate_doc_id stem_of upper choose_spans redact sort_spans validate commit write_text
    make_key
letter_returned = refl

generate_letter-CleanLetter_example :
    CleanLetter hexdigest codec decimal suffix vault committed_disk stored
      (parsed_target (some (text_value memo_handle)))
      (returned sent, after_letter)
unfolding eq_text
generate_letter-CleanLetter_example =
    generate_letter-CleanLetter hexdigest codec decimal suffix vault letter_request
      (some memo_state) committed_disk sent after_letter letter_returned

abbrev facade : LocalFacade
facade = record {
  tenant = record { tenant_id = codes "_local"; vault_root = vault };
  held_gateway = none;
}

request_restore-KeptOut_example : KeptOut start (refusal, refused_state)
request_restore-KeptOut_example =
    request_restore-KeptOut codec eq_text same_path (codes "a1") facade none start
      (Restoration.a_request people_of_memo) refusal refused_state agent_refused

execute-RanNothing_example :
    let templates = registered_templates hexdigest codec decimal suffix in
    RanNothing dump repr_of codec detail_of templates vault (codes "id") log (
      execute dump repr_of codec detail_of templates
        (codes "id")
        facade
        (a_request letter_request)
        log)
execute-RanNothing_example =
    execute-RanNothing hexdigest codec decimal suffix dump repr_of detail_of (codes "id") facade log
      (a_request letter_request)
