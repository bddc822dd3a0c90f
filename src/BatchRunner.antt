-- ===== src/BatchRunner.antt =====
-- `BatchRunner` (src/yomotsusaka/batch_runner.py). The inbox is the list of its regular files in the
-- order of their references: a file gives its stem, its path relative to the inbox and its text, or
-- nothing if it cannot be read. `path_digest` stands for the SHA-256 of the relative path, `error_of`
-- for the message on a failed batch. The identifier of the batch and the times come from outside.
pub mod Ids
pub mod Runs
pub mod Summaries
use yomotsusaka.Prelude.{
  ℕ, ◌+◌, Text, codes, Bool, true, false, not, Option, none, some, List, [], ◌∷◌, ◌++◌, map, all,
  length, take, leb, Result, ok, err, ◌>>=◌, if◌then◌else◌,
}
use yomotsusaka.Schemas.{DocumentManifest}
use yomotsusaka.Charset.{is_name_char, is_traversal}
use yomotsusaka.Redactor.{Span}
use yomotsusaka.Vault.{FilePath, Disk, Codec, manifest_path}
use yomotsusaka.Pipeline.{Proposer}
use yomotsusaka.Boundary.Resolver.{ProcessError, process_document_request, parse_manifest}
use yomotsusaka.QueryResolver.{RegisterError}
use yomotsusaka.SearchGateway.{SearchGateway, index}
use yomotsusaka.Snapshot.{IndexFiles, Attempt, Written, snapshot}
use yomotsusaka.BatchQueue.{Batches, QueueError, Call, submit, start, complete, fail, call_queue}

pub record InboxFile : Type 0 where
  pub ref : Text
  pub stem : Text
  pub relative : Text
  pub content : Option Text

-- `t or "doc"`
abbrev pub or_doc : Text → Text
or_doc [] = codes "doc"
or_doc (c ∷ t) = c ∷ t

-- `_DOC_ID_ALLOWED.sub("_", stem)`
unfoldable pub sanitised : Text → Text
unfolding is_name_char
sanitised stem = map (λ c. if is_name_char c then c else b'_') stem

-- The stem as it goes into the id.
unfoldable pub stem_part : Text → Text
unfolding sanitised is_traversal
stem_part stem =
    let name = sanitised (or_doc stem) in
    or_doc (take 117 (if is_traversal name then codes "doc" else or_doc name))

-- `_derive_doc_id`
unfoldable pub derive_doc_id : (Text → Text) → InboxFile → Text
unfolding stem_part
derive_doc_id path_digest file = stem_part file.stem ++ b'-' ∷ take 10 (path_digest file.relative)

-- The facade's vault and gateway.
pub record RunState : Type 0 where
  pub disk : Disk
  pub gateway : SearchGateway

-- `_process_one` returns a manifest or `None`; an exception that it does not catch ends the run.
pub data Processed : Type 0 where
  committed : DocumentManifest → Processed
  not_committed aborted : Processed

-- `SpanSpec` accepts every span of the list.
unfoldable pub are_specs : List Span → Bool
are_specs spans = all (λ s. leb s.start s.end) spans

abbrev pub index_step :
    DocumentManifest → Disk → Result RegisterError (Unit {0}) × SearchGateway → Processed × RunState
index_step m d (ok done, gateway) = (committed m, record { disk = d; gateway = gateway })
index_step m d (err cause, gateway) = (not_committed, record { disk = d; gateway = gateway })

-- The manifest that was loaded again goes into the gateway.
abbrev pub load_step : Option DocumentManifest → Disk → SearchGateway → Processed × RunState
load_step none d gateway = (not_committed, record { disk = d; gateway = gateway })
load_step (some m) d gateway = index_step m d (index m [] gateway)

module _ (hexdigest path_digest : Text → Text) (codec : Codec) (propose : Proposer)
    (root : FilePath) where
  abbrev pub process_step :
      Text → Result ProcessError Text × Disk → SearchGateway → Processed × RunState
  process_step doc_id (err cause, d) gateway =
      (not_committed, record { disk = d; gateway = gateway })
  process_step doc_id (ok handle, d) gateway =
      load_step (parse_manifest codec (d.files (manifest_path root doc_id))) d gateway

  abbrev pub specs_step : Text → Text → List Span → Bool → RunState → Processed × RunState
  specs_step doc_id raw_text spans false s = (aborted, s)
  specs_step doc_id raw_text spans true s =
      process_step doc_id
        (process_document_request hexdigest codec doc_id raw_text spans root s.disk) s.gateway

  abbrev pub propose_step : Text → Text → Option (List Span) → RunState → Processed × RunState
  propose_step doc_id raw_text none s = (not_committed, s)
  propose_step doc_id raw_text (some spans) s = specs_step doc_id raw_text spans (are_specs spans) s

  abbrev pub read_step : InboxFile → Option Text → RunState → Processed × RunState
  read_step file none s = (not_committed, s)
  read_step file (some raw_text) s =
      propose_step (derive_doc_id path_digest file) raw_text (propose raw_text) s

  -- `_process_one`
  unfoldable pub process_one : InboxFile → RunState → Processed × RunState
  unfolding process_document_request index are_specs derive_doc_id
  process_one file s = read_step file file.content s

-- What the loop over the files has come to.
pub data RunResult : Type 0 where
  finished : RunState → List DocumentManifest → List Text → RunResult
  run_aborted : RunState → RunResult

abbrev pub add_manifest : DocumentManifest → RunResult → RunResult
add_manifest m (finished s manifests failed_refs) = finished s (m ∷ manifests) failed_refs
add_manifest m (run_aborted s) = run_aborted s

abbrev pub add_failed : Text → RunResult → RunResult
add_failed ref (finished s manifests failed_refs) = finished s manifests (ref ∷ failed_refs)
add_failed ref (run_aborted s) = run_aborted s

abbrev pub after_one : Text → (RunState → RunResult) → Processed × RunState → RunResult
after_one ref rest (committed m, s) = add_manifest m (rest s)
after_one ref rest (not_committed, s) = add_failed ref (rest s)
after_one ref rest (aborted, s) = run_aborted s

pub record BatchSummary : Type 0 where
  pub submitted_count : ℕ
  pub committed_count : ℕ
  pub failed_count : ℕ
  pub failed_doc_refs : List Text
  pub index_persisted : Bool

-- `run_directory` returns a summary, or raises what the runner or the queue raised.
pub data DirectoryResult : Type 0 where
  summarised : BatchSummary → RunState → Batches → IndexFiles → DirectoryResult
  raised_by_queue : QueueError → DirectoryResult
  raised_by_file : RunState → DirectoryResult

-- `if doc_refs: self._queue.start(...)`
abbrev pub start_batch : Text → ℕ → List Text → Batches → Result QueueError Batches
start_batch id now [] q = ok q
start_batch id now (ref ∷ refs) q = call_queue (start id now) q

-- The terminal call on the queue.
abbrev pub end_batch :
    (ℕ → Text)
    → Text
    → ℕ
    → List Text
    → List DocumentManifest
    → List Text
    → Batches
    → Result QueueError Batches
end_batch error_of id now [] manifests failed_refs q = ok q
end_batch error_of id now (ref ∷ refs) (m ∷ manifests) failed_refs q =
    call_queue (complete id now (m ∷ manifests)) q
end_batch error_of id now (ref ∷ refs) [] [] q = call_queue (complete id now []) q
end_batch error_of id now (ref ∷ refs) [] (f ∷ failed_refs) q =
    call_queue (fail id now (error_of (length (f ∷ failed_refs)))) q

abbrev pub refs_of : List InboxFile → List Text
refs_of files = map (λ f. f.ref) files

-- The summary of a run whose loop and terminal call have come to their end, after the snapshot.
abbrev pub summary_step :
    List InboxFile
    → List DocumentManifest
    → List Text
    → RunState
    → Written
    → Result QueueError Batches
    → DirectoryResult
summary_step files manifests failed_refs s w (err cause) = raised_by_queue cause
summary_step files manifests failed_refs s w (ok q) =
    summarised
      (record {
        submitted_count = length files;
        committed_count = length manifests;
        failed_count = length failed_refs;
        failed_doc_refs = failed_refs;
        index_persisted = w.returns;
      })
      s q w.files

module _ (hexdigest path_digest : Text → Text) (codec : Codec) (propose : Proposer)
    (root : FilePath) where
  -- The loop over the files.
  unfoldable pub run_files : List InboxFile → RunState → RunResult
  unfolding process_one
  run_files [] s = finished s [] []
  run_files (file ∷ files) s =
      after_one file.ref (run_files files)
        (process_one hexdigest path_digest codec propose root file s)

  module _ (error_of : ℕ → Text) (dump : DocumentManifest → Text)
      (validate_json : Text → Option DocumentManifest) (system : ℕ → Attempt) (made : Bool)
      (index_files : IndexFiles) (batch_id : Text) (started finished_at : ℕ) where
    abbrev pub end_step : List InboxFile → RunResult → Batches → DirectoryResult
    end_step files (run_aborted s) q = raised_by_file s
    end_step files (finished s manifests failed_refs) q =
        summary_step files manifests failed_refs s
          (snapshot dump validate_json s.gateway made system index_files)
          (end_batch error_of batch_id finished_at (refs_of files) manifests failed_refs q)

    abbrev pub start_step : List InboxFile → RunState → Result QueueError Batches → DirectoryResult
    start_step files s (err cause) = raised_by_queue cause
    start_step files s (ok q) = end_step files (run_files files s) q

    -- `run_directory`, behind the tests on the inbox
    unfoldable pub run_directory : List InboxFile → RunState → Batches → DirectoryResult
    unfolding call_queue snapshot
    run_directory files s q = start_step files s (
        call_queue (submit batch_id (refs_of files)) q
        >>= start_batch batch_id started (refs_of files))
