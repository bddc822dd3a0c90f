-- ===== src/Templates.antt =====
-- The two registered templates (src/yomotsusaka/templates.py). `suffix` stands for the twelve digits of
-- a fresh UUID, `decimal` for a number's digits. `str.isalnum` is that of ASCII, which is all that a
-- template's name and the id of a parsed locator consist of. An exception is known by its class. The keys of
-- the entries are not empty, as the validator sees to.
pub mod Letters
use yomotsusaka.Prelude.{
  ℕ, Text, codes, eq_text, Bool, true, false, Option, none, some, List, [], ◌∷◌, ◌++◌, map, length,
  take, leb, ltb, ◌==◌, Result, ok, err, if◌then◌else◌,
}
use yomotsusaka.Schemas.{PrivateDictEntry, DocumentManifest, ArtifactHandle}
use yomotsusaka.Charset.{is_alphanumeric}
use yomotsusaka.Scrubber.{ScrubError, replace_from, scrub_stream}
use yomotsusaka.Validator.{ValidationError}
use yomotsusaka.Vault.{FilePath, Disk, VaultError, Codec, manifest_path}
use yomotsusaka.Pipeline.{PipelineError, invalid, vault_failed, process_document}
use yomotsusaka.SpanProposer.{propose_nothing}
use yomotsusaka.Boundary.Locator.{ParsedLocator, LocatorError, parse_locator}
use yomotsusaka.Boundary.Resolver.{PrivateState, public_handle_for, parse_manifest}
use yomotsusaka.Execution.{
  private_boundary, InputValue, text_value, other_value, ExecutionRequest, TemplateResult,
  TemplateOutcome, returned, raised, TemplateSpec,
}

abbrev pub dashed : Text → Text
dashed t = map (λ c. if is_alphanumeric c then c else b'-') t

-- `_new_artifact_id`
unfoldable pub new_artifact_id : Text → Text → Text → Text
new_artifact_id template_name source_id suffix =
    take 128 (dashed template_name ++ b'-' ∷ (dashed source_id ++ b'-' ∷ suffix))

-- `s <= t`, by code points
abbrev pub text_leb : Text → Text → Bool
text_leb [] t = true
text_leb (c ∷ s) [] = false
text_leb (c ∷ s) (d ∷ t) = let rest = text_leb s t in if c == d then rest else ltb c d

-- One key put into a sorted list of distinct keys.
abbrev pub insert_key : Text → List Text → List Text
insert_key key [] = key ∷ []
insert_key key (other ∷ keys) =
    let later = insert_key key keys in
    if eq_text key other
    then other ∷ keys
    else (if text_leb key other then key ∷ other ∷ keys else other ∷ later)

-- `sorted({entry.key for entry in entries})`
unfoldable pub sorted_keys : List PrivateDictEntry → List Text
unfolding eq_text
sorted_keys [] = []
sorted_keys (e ∷ entries) = insert_key e.key (sorted_keys entries)

-- `", ".join(keys)`
abbrev pub join : List Text → Text
join [] = []
join (key ∷ []) = key
join (key ∷ next ∷ keys) = key ++ (codes ", " ++ join (next ∷ keys))

abbrev pub value_error : TemplateOutcome
value_error = raised (codes "ValueError")

-- `private_state.private_entries` when `private_state` is `None`
abbrev pub attribute_error : TemplateOutcome
attribute_error = raised (codes "AttributeError")

-- The class of what the pipeline raises.
abbrev pub class_of : PipelineError → Text
class_of (invalid e) = codes "ValidationError"
class_of (vault_failed e) = codes "OSError"
class_of _ = codes "ValueError"

abbrev pub public_result : Text → Result LocatorError Text → TemplateOutcome
public_result stdout (err cause) = value_error
public_result stdout (ok locator) =
    returned (record { artifact_handles = locator ∷ []; stdout = stdout; stderr = [] })

-- The handle of the artifact that the pipeline committed.
abbrev pub committed_result :
    Text → Result PipelineError ArtifactHandle × Disk → TemplateOutcome × Disk
committed_result stdout (err cause, d) = (raised (class_of cause), d)
committed_result stdout (ok handle, d) = (public_result stdout (public_handle_for handle.doc_id), d)

-- The parsed locator of the target, if both tests pass.
abbrev pub parsed_target : Option InputValue → Option ParsedLocator
parsed_target (some (text_value t)) = parse_locator t
parsed_target _ = none

-- The key and the value of each entry that has one; the last entry of a key decides.
abbrev pub put_value : Text → Text → List (Text × Text) → List (Text × Text)
put_value key raw [] = (key, raw) ∷ []
put_value key raw ((k, r) ∷ pairs) =
    let later = put_value key raw pairs in
    if eq_text k key then (k, raw) ∷ pairs else (k, r) ∷ later

abbrev pub put_entry : PrivateDictEntry → List (Text × Text) → List (Text × Text)
put_entry e pairs = elim e.original_value [ [] ↦ pairs | c ∷ t ↦ put_value e.key (c ∷ t) pairs ]

unfoldable pub key_to_raw : List PrivateDictEntry → List (Text × Text) → List (Text × Text)
unfolding eq_text
key_to_raw [] pairs = pairs
key_to_raw (e ∷ entries) pairs = key_to_raw entries (put_entry e pairs)

-- `sorted(key_to_raw.keys(), key=len, reverse=True)`, which is stable.
abbrev pub insert_pair : Text × Text → List (Text × Text) → List (Text × Text)
insert_pair (key, raw) [] = (key, raw) ∷ []
insert_pair (key, raw) ((k, r) ∷ pairs) =
    let later = insert_pair (key, raw) pairs in
    if leb (length k) (length key) then (key, raw) ∷ (k, r) ∷ pairs else (k, r) ∷ later

abbrev pub sort_pairs : List (Text × Text) → List (Text × Text)
sort_pairs [] = []
sort_pairs (pair ∷ pairs) = insert_pair pair (sort_pairs pairs)

-- The loop of the substitutions.
unfoldable pub render : List (Text × Text) → Text → Text
unfolding replace_from
render [] text = text
render ((key, raw) ∷ pairs) text = render pairs (replace_from 0 key raw text)

module _ (hexdigest : Text → Text) (codec : Codec) (decimal : ℕ → Text) (suffix : Text) where
  -- `process_document` with the proposer that proposes nothing.
  abbrev pub commit_text : Text → Text → Text → FilePath → Disk → TemplateOutcome × Disk
  commit_text stdout doc_id text root d = committed_result stdout (
      process_document hexdigest codec doc_id text [] root (some (λ t. some (propose_nothing t))) d)

  abbrev pub summary_of :
      Text
      → Option PrivateState
      → Option DocumentManifest
      → FilePath
      → Disk
      → TemplateOutcome × Disk
  summary_of source private_state none root d = (raised (codes "ValidationError"), d)
  summary_of source none (some m) root d = (attribute_error, d)
  summary_of source (some state) (some m) root d =
      let keys = sorted_keys state.private_entries in
      let doc_id = new_artifact_id (codes "summarise-private-minutes") source suffix in
      commit_text
        (codes "summarised "
          ++ (decimal (length keys) ++ (codes " entit(ies) into doc " ++ doc_id)))
        doc_id (take 240 m.redacted_text ++ (codes "\n\nentities: " ++ join keys)) root d

  abbrev pub summary_file :
      Text → Option PrivateState → Option Text → FilePath → Disk → TemplateOutcome × Disk
  summary_file source private_state none root d = (raised (codes "FileNotFoundError"), d)
  summary_file source private_state (some raw) root d =
      summary_of source private_state (parse_manifest codec (some raw)) root d

  abbrev pub summary_target :
      Option PrivateState → Option ParsedLocator → FilePath → Disk → TemplateOutcome × Disk
  summary_target private_state none root d = (value_error, d)
  summary_target private_state (some parsed) root d =
      summary_file parsed.opaque_id private_state (d.files (manifest_path root parsed.opaque_id))
        root d

  -- `_summarise_private_minutes`
  unfoldable pub summarise_private_minutes :
      ExecutionRequest → Option PrivateState → FilePath → Disk → TemplateOutcome × Disk
  unfolding process_document new_artifact_id sorted_keys parse_locator public_handle_for
  summarise_private_minutes request private_state root d =
      summary_target private_state (parsed_target (request.inputs (codes "target_handle"))) root d

  abbrev pub letter_result :
      ℕ → Text → Result ScrubError Text → FilePath → Disk → TemplateOutcome × Disk
  letter_result count source (err cause) root d = (raised (codes "ScrubError"), d)
  letter_result count source (ok redacted_letter) root d =
      commit_text (codes "rendered letter with " ++ (decimal count ++ codes " substitution(s)"))
        (new_artifact_id (codes "letter") source suffix) redacted_letter root d

  abbrev pub letter_body :
      Option PrivateState → Text → Option ParsedLocator → FilePath → Disk → TemplateOutcome × Disk
  letter_body private_state body none root d = (value_error, d)
  letter_body none body (some parsed) root d = (attribute_error, d)
  letter_body (some state) body (some parsed) root d =
      let pairs = key_to_raw state.private_entries [] in
      letter_result (length pairs) parsed.opaque_id
        (scrub_stream (render (sort_pairs pairs) body) state.private_entries) root d

  -- The tests on the body of the template.
  abbrev pub letter_step :
      Option PrivateState
      → Option InputValue
      → Option ParsedLocator
      → FilePath
      → Disk
      → TemplateOutcome × Disk
  letter_step private_state (some (text_value (c ∷ body))) parsed root d =
      letter_body private_state (c ∷ body) parsed root d
  letter_step private_state (some (text_value [])) parsed root d = (value_error, d)
  letter_step private_state (some other_value) parsed root d = (value_error, d)
  letter_step private_state none parsed root d = (value_error, d)

  -- `_generate_letter_from_private_template`
  unfoldable pub generate_letter_from_private_template :
      ExecutionRequest → Option PrivateState → FilePath → Disk → TemplateOutcome × Disk
  unfolding process_document new_artifact_id key_to_raw render scrub_stream parse_locator
      public_handle_for
  generate_letter_from_private_template request private_state root d =
      letter_step private_state (request.inputs (codes "template_body"))
        (parsed_target (request.inputs (codes "target_handle"))) root d

  -- `TEMPLATES`
  abbrev pub registered_templates : List TemplateSpec
  registered_templates =
      record {
        name = codes "summarise_private_minutes";
        fn = summarise_private_minutes;
        min_scope = private_boundary;
        requires_locator_input = true;
      }
      ∷ record {
        name = codes "generate_letter_from_private_template";
        fn = generate_letter_from_private_template;
        min_scope = private_boundary;
        requires_locator_input = true;
      }
      ∷ []
