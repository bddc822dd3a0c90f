-- ===== src/Templates/Letters.antt =====
-- What a letter that was committed holds, and what ids of artifacts look like.
use yomotsusaka.Prelude.{
  ℕ, Text, codes, Option, none, some, List, [], ◌∷◌, ◌++◌, length, append-nil, ◌≡◌, ◌≢◌, refl, sym,
  ap, ◌∙◌, subst, All, Result, ok, err,
}
use yomotsusaka.Schemas.{PrivateDictEntry, ArtifactHandle}
use yomotsusaka.Redactor.{Span, Redaction, redact, sort_spans}
use yomotsusaka.Scrubber.{ScrubError, scrub_stream}
use yomotsusaka.Scrubber.Laws.{scrub_stream_clean}
use yomotsusaka.Scrubber.Paths.{NoVaultPath}
use yomotsusaka.Validator.Spec.{NoLeak}
use yomotsusaka.Vault.{FilePath, Disk, Codec, manifest_path, private_path}
use yomotsusaka.Vault.Laws.{commit_files, commit_frame}
use yomotsusaka.Pipeline.{PipelineError, Proposer, choose_spans, manifest_for, process_document}
use yomotsusaka.Pipeline.Laws.{prepare_ok, process_document_ok}
use yomotsusaka.SpanProposer.{propose_nothing}
use yomotsusaka.Boundary.Locator.{ParsedLocator, LocatorError}
use yomotsusaka.Boundary.Resolver.{PrivateState, public_handle_for}
use yomotsusaka.Execution.{
  InputValue, text_value, other_value, ExecutionRequest, TemplateResult, TemplateOutcome, returned,
  raised, entries_of,
}
use yomotsusaka.Templates.{
  new_artifact_id, parsed_target, public_result, committed_result, key_to_raw, sort_pairs, render,
  letter_result, letter_body, letter_step, generate_letter_from_private_template,
}

abbrev quiet : Option Proposer
quiet = some (λ t. some (propose_nothing t))

redact_nothing :
    (hexdigest : Text → Text) (text : Text) → (redact hexdigest text []).redacted_text ≡ text
unfolding redact sort_spans
redact_nothing hexdigest text = append-nil text

chosen_nothing : (text : Text) (ss : List Span) → choose_spans [] quiet text ≡ ok ss → [] ≡ ss
unfolding choose_spans
chosen_nothing text ss e = cc

module _ (hexdigest : Text → Text) (codec : Codec) (decimal : ℕ → Text) (suffix : Text)
    (root : FilePath) where
  -- No path but the two of a document has changed.
  abbrev pub OnlyChanged : Text → Disk → Disk → Type 0
  OnlyChanged doc_id old d =
      (q : FilePath)
      → q ≢ manifest_path root doc_id
      → q ≢ private_path root doc_id
      → d.files q ≡ old.files q

  -- The text that a run committed under an id, whose handle the outcome gives.
  abbrev pub Committed : Disk → Text → Text → TemplateOutcome × Disk → Type 0
  Committed old doc_id text (raised class_name, d) = Unit
  Committed old doc_id text (returned result, d) =
      (r : Redaction) × (locator : Text) × (r.redacted_text ≡ text)
      × (d.files (manifest_path root doc_id) ≡ some (codec.dump_manifest (manifest_for doc_id r)))
      × (public_handle_for doc_id ≡ ok locator)
      × (result.artifact_handles ≡ locator ∷ [])
      × OnlyChanged doc_id old d

  public_result-Committed :
      (stdout doc_id text : Text) (r : Redaction) (old d : Disk)
      → OnlyChanged doc_id old d
      → r.redacted_text ≡ text
      → d.files (manifest_path root doc_id) ≡ some (codec.dump_manifest (manifest_for doc_id r))
      → (public : Result LocatorError Text) → public_handle_for doc_id ≡ public
      → Committed old doc_id text (public_result stdout public, d)
  public_result-Committed stdout doc_id text r old d only kept written (err cause) e = tt
  public_result-Committed stdout doc_id text r old d only kept written (ok locator) e =
      (r, locator, kept, written, e, refl, only)

  process_document-kept :
      (doc_id text : Text) (d : Disk) (handle : ArtifactHandle)
      → (process_document hexdigest codec doc_id text [] root quiet d).0 ≡ ok handle
      → (r : Redaction) × (r.redacted_text ≡ text)
        × ((process_document hexdigest codec doc_id text [] root quiet d).1.files
              (manifest_path root doc_id)
            ≡ some (codec.dump_manifest (manifest_for doc_id r)))
        × (handle.doc_id ≡ doc_id)
        × OnlyChanged doc_id d (process_document hexdigest codec doc_id text [] root quiet d).1
  process_document-kept doc_id text d handle e =
      let (r, p, c, same) =
        process_document_ok hexdigest codec doc_id text [] quiet root d handle e in
      let (ss, chosen, redacted, clean) = prepare_ok hexdigest codec doc_id text [] quiet r p in
      let (public_file, private_file, named, place) =
        commit_files codec (manifest_for doc_id r) r.private_dict root d c in
      let kept : r.redacted_text ≡ text =
        sym (ap (λ x. x.redacted_text) redacted)
        ∙ ap (λ x. (redact hexdigest text x).redacted_text) (sym (chosen_nothing text ss chosen))
        ∙ redact_nothing hexdigest text in
      (
        r,
        kept,
        ap (λ x. x.files (manifest_path root doc_id)) same ∙ public_file,
        named,
        λ q h k.
            ap (λ x. x.files q) same
            ∙ commit_frame codec (manifest_for doc_id r) r.private_dict root d q h k,
      )

  committed_result-Committed :
      (stdout doc_id text : Text) (d : Disk) (run : Result PipelineError ArtifactHandle × Disk)
      → process_document hexdigest codec doc_id text [] root quiet d ≡ run
      → Committed d doc_id text (committed_result stdout run)
  committed_result-Committed stdout doc_id text d (err cause, after) e = tt
  committed_result-Committed stdout doc_id text d (ok handle, after) e =
      let (r, kept, written, named, only) =
        process_document-kept doc_id text d handle (ap (λ x. x.0) e) in
      public_result-Committed stdout doc_id text r d after
        (subst (λ x. OnlyChanged doc_id d x.1) e only) kept
        (ap (λ x. x.1.files (manifest_path root doc_id)) (sym e) ∙ written)
        (public_handle_for handle.doc_id) (ap public_handle_for (sym named))

  -- What a letter that was returned has left in the vault, for the entries and the target given.
  abbrev pub CleanLetter :
      Disk → List PrivateDictEntry → Option ParsedLocator → TemplateOutcome × Disk → Type 0
  CleanLetter old entries target (raised class_name, d) = Unit
  CleanLetter old entries target (returned result, d) =
      (parsed : ParsedLocator) × (r : Redaction) × (locator : Text) × (target ≡ some parsed)
      × (let doc_id = new_artifact_id (codes "letter") parsed.opaque_id suffix in
          (d.files (manifest_path root doc_id) ≡ some (codec.dump_manifest (manifest_for doc_id r)))
          × (public_handle_for doc_id ≡ ok locator)
          × OnlyChanged doc_id old d)
      × (result.artifact_handles ≡ locator ∷ [])
      × (All (NoLeak r.redacted_text) entries × NoVaultPath r.redacted_text)

  Committed-CleanLetter :
      (old : Disk) (entries : List PrivateDictEntry) (parsed : ParsedLocator) (text : Text)
      → All (NoLeak text) entries × NoVaultPath text
      → (run : TemplateOutcome × Disk)
      → Committed old (new_artifact_id (codes "letter") parsed.opaque_id suffix) text run
      → CleanLetter old entries (some parsed) run
  Committed-CleanLetter old entries parsed text clean (raised class_name, d) h = tt
  Committed-CleanLetter old entries parsed text clean (returned result, d) h =
      let (r, locator, kept, written, named, listed, only) = h in
      (
        parsed,
        r,
        locator,
        refl,
        (written, named, only),
        listed,
        subst (λ t. All (NoLeak t) entries × NoVaultPath t) (sym kept) clean,
      )

  letter_result-CleanLetter :
      (entries : List PrivateDictEntry) (count : ℕ) (parsed : ParsedLocator) (rendered : Text)
      (scrubbed : Result ScrubError Text) (d : Disk)
      → scrub_stream rendered entries ≡ scrubbed
      → CleanLetter d entries
          (some parsed)
          (letter_result hexdigest codec decimal suffix count parsed.opaque_id scrubbed root d)
  letter_result-CleanLetter entries count parsed rendered (err cause) d e = tt
  letter_result-CleanLetter entries count parsed rendered (ok text) d e =
      let doc_id = new_artifact_id (codes "letter") parsed.opaque_id suffix in
      Committed-CleanLetter d entries parsed text (scrub_stream_clean rendered entries e) _ (
        committed_result-Committed
          (codes "rendered letter with " ++ (decimal count ++ codes " substitution(s)")) doc_id text
          d (process_document hexdigest codec doc_id text [] root quiet d) refl)

  letter_body-CleanLetter :
      (private_state : Option PrivateState) (body : Text) (target : Option ParsedLocator) (d : Disk)
      → CleanLetter d
          (entries_of private_state)
          target
          (letter_body hexdigest codec decimal suffix private_state body target root d)
  letter_body-CleanLetter private_state body none d = tt
  letter_body-CleanLetter none body (some parsed) d = tt
  letter_body-CleanLetter (some state) body (some parsed) d =
      let pairs = key_to_raw state.private_entries [] in
      letter_result-CleanLetter state.private_entries (length pairs) parsed
        (render (sort_pairs pairs) body)
        (scrub_stream (render (sort_pairs pairs) body) state.private_entries) d refl

  letter_step-CleanLetter :
      (private_state : Option PrivateState) (body : Option InputValue)
      (target : Option ParsedLocator) (d : Disk)
      → CleanLetter d
          (entries_of private_state)
          target
          (letter_step hexdigest codec decimal suffix private_state body target root d)
  letter_step-CleanLetter private_state (some (text_value (c ∷ body))) target d =
      letter_body-CleanLetter private_state (c ∷ body) target d
  letter_step-CleanLetter private_state (some (text_value [])) target d = tt
  letter_step-CleanLetter private_state (some other_value) target d = tt
  letter_step-CleanLetter private_state none target d = tt

  -- If `_generate_letter_from_private_template` returns a result, then the target of the request
  -- is a locator, and the one handle of the result is the public locator of the id that is made
  -- from the target's id and the suffix. Under that id the vault holds a manifest whose text
  -- contains no original value of the entries that is not empty and no vault path, and no other
  -- path than the two of that id has changed.
  pub generate_letter-CleanLetter :
      (request : ExecutionRequest) (private_state : Option PrivateState) (d : Disk)
      (result : TemplateResult) (after : Disk)
      → generate_letter_from_private_template hexdigest codec decimal suffix request private_state
          root d
        ≡ (returned result, after)
      → CleanLetter d
          (entries_of private_state)
          (parsed_target (request.inputs (codes "target_handle")))
          (returned result, after)
  unfolding generate_letter_from_private_template
  generate_letter-CleanLetter request private_state d result after e =
      subst
        (CleanLetter d (entries_of private_state)
          (parsed_target (request.inputs (codes "target_handle"))))
        e
        (letter_step-CleanLetter private_state (request.inputs (codes "template_body"))
          (parsed_target (request.inputs (codes "target_handle"))) d)
