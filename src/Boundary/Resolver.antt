-- ===== src/Boundary/Resolver.antt =====
-- The fail-closed resolver and the entry points that read the vault (src/yomotsusaka/boundary.py).
-- A file that exists is read as it stands: deletion between the two is not modelled.
pub mod Laws
pub mod Processed
use yomotsusaka.Prelude.{
  ℕ, Text, codes, eq_text, Bool, true, false, not, Option, none, some, List, [], ◌∷◌, all, leb,
  ◌==◌, ◌&&◌, ◌||◌, Result, ok, err, if◌then◌else◌,
}
use yomotsusaka.Schemas.{EntityRecord, PrivateDictEntry, DocumentManifest, ArtifactHandle}
use yomotsusaka.Redactor.{Span}
use yomotsusaka.Vault.{FilePath, Disk, Codec, manifest_path, private_path}
use yomotsusaka.Pipeline.{PipelineError, process_document}
use yomotsusaka.Boundary.Locator.{ParsedLocator, LocatorError, build_locator, parse_locator}

pub data ResolverScope : Type 0 where
  ordinary_agent private_boundary audit_reviewer : ResolverScope

pub ResolverScope-discrete : Discrete ResolverScope
ResolverScope-discrete = hlevel

-- `ScopeDenied` stands in the enumeration and is never emitted.
pub data ResolverFailureReason : Type 0 where
  malformed_locator unknown_artifact artifact_missing scope_denied purpose_not_permitted :
      ResolverFailureReason

pub record PrivateState : Type 0 where
  pub manifest_path : FilePath
  pub private_dict_path : FilePath
  pub private_entries : List PrivateDictEntry

pub record ResolverSuccess : Type 0 where
  pub locator : Text
  pub parsed : ParsedLocator
  pub purpose : Text
  pub private_state : Option PrivateState

pub data Resolution : Type 0 where
  failure : Text → ResolverFailureReason → Resolution
  success : ResolverSuccess → Resolution

-- `str.isspace` of one character.
abbrev pub is_space : ℕ → Bool
is_space c =
    leb 9 c && leb c 13
    || (leb 28 c && leb c 32
        || (c == 133
            || c == 160
            || (c == 5760 || leb 8192 c && leb c 8202)
            || (c == 8232 || c == 8233 || (c == 8239 || c == 8287 || c == 12288))))

-- `not t.strip()`
unfoldable pub is_blank : Text → Bool
is_blank t = all is_space t

-- `path.exists()`
abbrev pub exists : FilePath → Disk → Bool
exists path d = elim (d.files path) [ none ↦ false | some _ ↦ true ]

abbrev pub succeed : Text → ParsedLocator → Text → Option PrivateState → Resolution
succeed locator parsed purpose state =
    success
      (record { locator = locator; parsed = parsed; purpose = purpose; private_state = state })

-- `PublicManifestView`: what an agent sees of a manifest.
pub record PublicManifestView : Type 0 where
  pub doc_id : Text
  pub redacted_text : Text
  pub entities : List EntityRecord
  pub labels : List Text
  pub summary : Text

-- `from_manifest`
abbrev pub from_manifest : DocumentManifest → PublicManifestView
from_manifest m = record {
  doc_id = m.doc_id;
  redacted_text = m.redacted_text;
  entities = m.entities;
  labels = m.labels;
  summary = m.summary;
}

pub data Inspection : Type 0 where
  inspected : PublicManifestView → Inspection
  not_inspected : Text → ResolverFailureReason → Inspection

abbrev pub view_manifest : Text → Option DocumentManifest → Inspection
view_manifest locator none = not_inspected locator artifact_missing
view_manifest locator (some m) = inspected (from_manifest m)

module _ (codec : Codec) where
  abbrev pub parse_entries : Option Text → Option (List PrivateDictEntry)
  parse_entries none = none
  parse_entries (some raw) = codec.load_entries raw

  abbrev pub with_entries :
      Text → ParsedLocator → Text → FilePath → Option (List PrivateDictEntry) → Resolution
  with_entries locator parsed purpose root none = failure locator artifact_missing
  with_entries locator parsed purpose root (some entries) = succeed locator parsed purpose (
      some (record {
        manifest_path = manifest_path root parsed.opaque_id;
        private_dict_path = private_path root parsed.opaque_id;
        private_entries = entries;
      }))

  -- The part of `resolve` that depends on the scope.
  unfoldable pub materialise :
      Text → ParsedLocator → ResolverScope → Text → FilePath → Disk → Resolution
  materialise locator parsed private_boundary purpose root d =
      with_entries locator parsed purpose root
        (parse_entries (d.files (private_path root parsed.opaque_id)))
  materialise locator parsed ordinary_agent purpose root d = succeed locator parsed purpose none
  materialise locator parsed audit_reviewer purpose root d = succeed locator parsed purpose none

  -- The part of `resolve` behind the parser.
  unfoldable pub resolve_parsed :
      Text → Option ParsedLocator → ResolverScope → Text → FilePath → Disk → Resolution
  unfolding eq_text materialise
  resolve_parsed locator none scope purpose root d = failure locator malformed_locator
  resolve_parsed locator (some parsed) scope purpose root d =
      if eq_text parsed.artifact_kind (codes "manifest")
      then (if exists (manifest_path root parsed.opaque_id) d
          then materialise locator parsed scope purpose root d
          else failure locator unknown_artifact)
      else failure locator unknown_artifact

  -- `resolve`
  unfoldable pub resolve : Text → ResolverScope → Text → FilePath → Disk → Resolution
  unfolding resolve_parsed is_blank
  resolve locator scope purpose root d =
      if is_blank purpose
      then failure locator purpose_not_permitted
      else resolve_parsed locator (parse_locator locator) scope purpose root d

  abbrev pub parse_manifest : Option Text → Option DocumentManifest
  parse_manifest none = none
  parse_manifest (some raw) = codec.load_manifest raw

  -- `inspect_request`
  unfoldable pub inspect_request : Text → Text → FilePath → Disk → Inspection
  unfolding resolve
  inspect_request locator purpose root d = elim (resolve locator ordinary_agent purpose root d) [
    | failure l reason ↦ not_inspected l reason
    | success s ↦
        view_manifest locator (parse_manifest (d.files (manifest_path root s.parsed.opaque_id)))
  ]

pub data ReportStatus : Type 0 where
  committed unknown : ReportStatus

abbrev pub status_of : Option ParsedLocator → FilePath → Disk → ReportStatus
status_of none root d = unknown
status_of (some parsed) root d =
    if eq_text parsed.artifact_kind (codes "manifest")
      && exists (manifest_path root parsed.opaque_id) d
    then committed
    else unknown

-- `status_report_request`
unfoldable pub status_report_request : Text → FilePath → Disk → ReportStatus
unfolding eq_text
status_report_request locator root d = status_of (parse_locator locator) root d

-- The parts of the handle that `_public_handle_for` builds.
abbrev pub handle_parts : Text → ParsedLocator
handle_parts doc_id = record {
  exposure_class = codes "agent_redacted";
  artifact_kind = codes "manifest";
  opaque_id = doc_id;
  fragment = none;
}

-- `_public_handle_for`
unfoldable pub public_handle_for : Text → Result LocatorError Text
unfolding build_locator
public_handle_for doc_id = build_locator (handle_parts doc_id)

pub data ProcessError : Type 0 where
  bad_locator : LocatorError → ProcessError
  kernel_failed : PipelineError → ProcessError

abbrev pub handle_of : Result LocatorError Text → Result ProcessError Text
handle_of (ok locator) = ok locator
handle_of (err e) = err (bad_locator e)

abbrev pub process_response :
    Result PipelineError ArtifactHandle × Disk → Result ProcessError Text × Disk
process_response (ok h, d) = (handle_of (public_handle_for h.doc_id), d)
process_response (err e, d) = (err (kernel_failed e), d)

-- The kernel runs only behind the check of the locator.
abbrev pub process_checked :
    Result LocatorError Text
    → Result PipelineError ArtifactHandle × Disk
    → Disk
    → Result ProcessError Text × Disk
process_checked (err e) run d = (err (bad_locator e), d)
process_checked (ok _) run d = process_response run

-- `process_document_request`: the locator of the committed document.
unfoldable pub process_document_request :
    (Text → Text)
    → Codec
    → Text
    → Text
    → List Span
    → FilePath
    → Disk
    → Result ProcessError Text × Disk
process_document_request hexdigest codec doc_id raw_text spans root d =
    process_checked (public_handle_for doc_id)
      (process_document hexdigest codec doc_id raw_text spans root none d) d
