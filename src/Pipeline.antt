-- ===== src/Pipeline.antt =====
-- The pipeline that redacts, validates and commits a document (src/yomotsusaka/pipeline.py).
pub mod Names
pub mod Laws
use yomotsusaka.Prelude.{
  ℕ, ◌+◌, ◌-◌, Text, codes, eq_text, Bool, true, false, not, Option, none, some, List, [], ◌∷◌,
  ◌++◌, any, leb, ◌==◌, ◌&&◌, ◌||◌, Result, ok, err, ◌>>=◌, ◌>>◌, require, if◌then◌else◌,
}
use yomotsusaka.Schemas.{PrivateDictEntry, DocumentManifest, ArtifactHandle}
use yomotsusaka.Charset.{is_name, is_traversal}
use yomotsusaka.Redactor.{Span, Redaction, redact}
use yomotsusaka.Validator.{ValidationError, validate}
use yomotsusaka.Vault.{FilePath, Disk, VaultError, Codec, commit}

pub data PipelineError : Type 0 where
  bad_doc_id traversal_doc_id reserved_doc_id ambiguous_spans : PipelineError
  -- What the proposer raised.
  proposer_failed : PipelineError
  invalid : ValidationError → PipelineError
  vault_failed : VaultError → PipelineError

-- `t.split(".", 1)[0]`
unfoldable pub stem_of : Text → Text
stem_of [] = []
stem_of (c ∷ t) = let rest = stem_of t in if c == b'.' then [] else c ∷ rest

-- `str.upper` on the characters of a document id, which are ASCII.
unfoldable pub upper : Text → Text
upper [] = []
upper (c ∷ t) = (if leb b'a' c && leb c b'z' then c - 32 else c) ∷ upper t

-- `_WINDOWS_RESERVED_NAMES`
abbrev pub windows_reserved_names : List Text
windows_reserved_names =
    codes "CON"
    ∷ codes "PRN"
    ∷ codes "AUX"
    ∷ codes "NUL"
    ∷ codes "COM1"
    ∷ codes "COM2"
    ∷ codes "COM3"
    ∷ codes "COM4"
    ∷ codes "COM5"
    ∷ codes "COM6"
    ∷ codes "COM7"
    ∷ codes "COM8"
    ∷ codes "COM9"
    ∷ codes "LPT1"
    ∷ codes "LPT2"
    ∷ codes "LPT3"
    ∷ codes "LPT4"
    ∷ codes "LPT5"
    ∷ codes "LPT6"
    ∷ codes "LPT7"
    ∷ codes "LPT8"
    ∷ codes "LPT9"
    ∷ []

-- `_validate_doc_id`
unfoldable pub validate_doc_id : Text → Result PipelineError (Unit {0})
unfolding is_name is_traversal stem_of upper eq_text
validate_doc_id doc_id = do
  require (is_name 128 doc_id) bad_doc_id
  require (not (is_traversal doc_id)) traversal_doc_id
  require (not (any (eq_text (upper (stem_of doc_id))) windows_reserved_names)) reserved_doc_id

-- A proposer, or what it raises.
abbrev pub Proposer : Type 0
Proposer = Text → Option (List Span)

-- Exactly one source of spans: the spans to redact with.
unfoldable pub choose_spans : List Span → Option Proposer → Text → Result PipelineError (List Span)
choose_spans [] none raw_text = err ambiguous_spans
choose_spans [] (some propose) raw_text = elim (propose raw_text) [
  | none ↦ err proposer_failed
  | some spans ↦ ok spans
]
choose_spans (s ∷ ss) none raw_text = ok (s ∷ ss)
choose_spans (s ∷ ss) (some propose) raw_text = err ambiguous_spans

abbrev pub manifest_for : Text → Redaction → DocumentManifest
manifest_for doc_id r = record {
  doc_id = doc_id;
  source_ref = doc_id;
  redacted_text = r.redacted_text;
  entities = r.entity_records;
  labels = [];
  summary = [];
}

abbrev pub checked : Option ValidationError → Result PipelineError (Unit {0})
checked none = ok tt
checked (some e) = err (invalid e)

abbrev pub commit_outcome :
    Result VaultError ArtifactHandle × Disk → Result PipelineError ArtifactHandle × Disk
commit_outcome (ok h, d) = (ok h, d)
commit_outcome (err e, d) = (err (vault_failed e), d)

module _ (hexdigest : Text → Text) (codec : Codec) where
  -- All that comes before the commit: what is to be committed.
  unfoldable pub prepare :
      Text → Text → List Span → Option Proposer → Result PipelineError Redaction
  prepare doc_id raw_text spans proposer = do
    validate_doc_id doc_id
    chosen ← choose_spans spans proposer raw_text
    let r = redact hexdigest raw_text chosen
    checked (validate (manifest_for doc_id r) r.private_dict)
    ok r

  abbrev pub commit_prepared :
      Text
      → FilePath
      → Disk
      → Result PipelineError Redaction
      → Result PipelineError ArtifactHandle × Disk
  commit_prepared doc_id vault_root d (err e) = (err e, d)
  commit_prepared doc_id vault_root d (ok r) =
      commit_outcome (commit codec (manifest_for doc_id r) r.private_dict vault_root d)

  -- `process_document`
  unfoldable pub process_document :
      Text
      → Text
      → List Span
      → FilePath
      → Option Proposer
      → Disk
      → Result PipelineError ArtifactHandle × Disk
  process_document doc_id raw_text spans vault_root proposer d =
      commit_prepared doc_id vault_root d (prepare doc_id raw_text spans proposer)
