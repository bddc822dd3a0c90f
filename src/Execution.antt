-- ===== src/Execution.antt =====
-- The dispatcher of the execution gateway (`execute_request` of src/yomotsusaka/boundary.py, with the
-- types of src/yomotsusaka/execution_gateway.py and src/yomotsusaka/templates.py). `repr_of` stands for
-- `repr` of a text, `resolver_detail` for the texts that `resolve` puts beside its reason, `templates`
-- for the registry. An input that is no text is not looked into here.
pub mod Dispatch
pub mod Ways
pub mod Responses
pub mod Gate
use yomotsusaka.Prelude.{
  Text, codes, eq_text, Bool, true, false, Option, none, some, List, [], ◌∷◌, ◌++◌, Result, ok, err,
  if◌then◌else◌, ◌||◌, ◌&&◌, not,
}
use yomotsusaka.Schemas.{PrivateDictEntry}
use yomotsusaka.Scrubber.{ScrubError, residual_value, scrub_stream}
use yomotsusaka.Vault.{FilePath, Disk, Codec}
use yomotsusaka.Boundary.Locator.{ParsedLocator, parse_locator}
use yomotsusaka.Boundary.Resolver.{
  ResolverScope, ResolverFailureReason, malformed_locator, unknown_artifact, PrivateState,
  ResolverSuccess, Resolution, failure, success, is_blank, resolve,
}
use yomotsusaka.Audit.{AuditRecord, Log, template_ran, write_record}

pub data ExecutionScope : Type 0 where
  private_boundary ordinary_agent : ExecutionScope

abbrev pub scope_value : ExecutionScope → Text
scope_value private_boundary = codes "private_boundary"
scope_value ordinary_agent = codes "ordinary_agent"

pub data ExecutionFailureReason : Type 0 where
  scope_denied purpose_not_permitted template_not_found schema_invalid scrub_failed template_raised
        artifact_missing audit_write_failed :
      ExecutionFailureReason

abbrev pub reason_value : ExecutionFailureReason → Text
reason_value scope_denied = codes "scope_denied"
reason_value purpose_not_permitted = codes "purpose_not_permitted"
reason_value template_not_found = codes "template_not_found"
reason_value schema_invalid = codes "schema_invalid"
reason_value scrub_failed = codes "scrub_failed"
reason_value template_raised = codes "template_raised"
reason_value artifact_missing = codes "artifact_missing"
reason_value audit_write_failed = codes "audit_write_failed"

-- `ResolverFailureReason.value`
abbrev pub resolver_reason_value : ResolverFailureReason → Text
resolver_reason_value malformed_locator = codes "malformed_locator"
resolver_reason_value unknown_artifact = codes "unknown_artifact"
resolver_reason_value ResolverFailureReason.artifact_missing = codes "artifact_missing"
resolver_reason_value ResolverFailureReason.scope_denied = codes "scope_denied"
resolver_reason_value ResolverFailureReason.purpose_not_permitted = codes "purpose_not_permitted"

-- The value of an input.
pub data InputValue : Type 0 where
  text_value : Text → InputValue
  other_value : InputValue

pub record ExecutionRequest : Type 0 where
  pub job_name : Text
  pub purpose : Text
  pub inputs : Text → Option InputValue

-- A call may be handed something that is no request.
pub data ExecutionInput : Type 0 where
  not_a_request : ExecutionInput
  a_request : ExecutionRequest → ExecutionInput

pub data Status : Type 0 where
  accepted failed : Status

pub record ExecutionResponse : Type 0 where
  pub audit_record_id : Text
  pub status : Status
  pub artifacts : List Text
  pub scrubbed_stdout : Text
  pub scrubbed_stderr : Text
  pub reason : Option ExecutionFailureReason
  pub detail : Option Text

-- The locators of the artifacts, and the two outputs.
pub record TemplateResult : Type 0 where
  pub artifact_handles : List Text
  pub stdout : Text
  pub stderr : Text

-- A template returns, or raises an exception of which the class is named.
pub data TemplateOutcome : Type 0 where
  returned : TemplateResult → TemplateOutcome
  raised : Text → TemplateOutcome

pub record TemplateSpec : Type 0 where
  pub name : Text
  pub fn : ExecutionRequest → Option PrivateState → FilePath → Disk → TemplateOutcome × Disk
  pub min_scope : ExecutionScope
  pub requires_locator_input : Bool

-- `TEMPLATES.get(template_name)`
unfoldable pub find_template : Text → List TemplateSpec → Option TemplateSpec
unfolding eq_text
find_template name [] = none
find_template name (spec ∷ specs) =
    let later = find_template name specs in if eq_text name spec.name then some spec else later

-- The scope gate.
abbrev pub denies : ExecutionScope → ExecutionScope → Bool
denies private_boundary private_boundary = false
denies private_boundary ordinary_agent = true
denies ordinary_agent scope = false

-- `locator_input if isinstance(locator_input, str) else ""`
abbrev pub locator_text : Option InputValue → Text
locator_text (some (text_value t)) = t
locator_text _ = []

abbrev pub is_manifest_locator : Option ParsedLocator → Bool
is_manifest_locator none = false
is_manifest_locator (some parsed) = eq_text parsed.artifact_kind (codes "manifest")

-- How a failure of the resolver is reported.
abbrev pub mapped : ResolverFailureReason → ExecutionFailureReason
mapped malformed_locator = artifact_missing
mapped unknown_artifact = artifact_missing
mapped ResolverFailureReason.artifact_missing = artifact_missing
mapped ResolverFailureReason.scope_denied = scope_denied
mapped ResolverFailureReason.purpose_not_permitted = purpose_not_permitted

-- The arguments of `_emit_failure`; the outcome is always the value of the reason.
pub record Denial : Type 0 where
  pub reason : ExecutionFailureReason
  pub detail : Text
  pub template_name : Text
  pub purpose : Text
  pub locator : Text
  pub resolver_reason : Option Text
  pub private_dict : List PrivateDictEntry

abbrev pub or_unknown : Text → Text
or_unknown t = if is_blank t then codes "<unknown>" else t

abbrev pub withheld : Text
withheld = codes "<failure detail withheld for privacy>"

abbrev pub safe_detail_of : Result ScrubError Text → Text
safe_detail_of (err cause) = withheld
safe_detail_of (ok detail) = detail

-- `list(private_state.private_entries) if private_state is not None else []`
abbrev pub entries_of : Option PrivateState → List PrivateDictEntry
entries_of none = []
entries_of (some state) = state.private_entries

abbrev pub residual_key : ScrubError → Text
residual_key (residual_value key) = key

-- `private_state is None and (result.stdout or result.stderr)`
abbrev pub unscrubbable : Option PrivateState → Text → Text → Bool
unscrubbable (some state) stdout stderr = false
unscrubbable none [] [] = false
unscrubbable none (c ∷ stdout) stderr = true
unscrubbable none [] (c ∷ stderr) = true
