-- ===== src/BatchRunner/Summaries.antt =====
-- What a run over a directory reports, and where its batch ends.
use yomotsusaka.Prelude.{ℕ, ◌+◌, Text, Bool, Option, some, List, [], ◌∷◌, ◌++◌, length, ◌≡◌, ok}
use yomotsusaka.Schemas.{DocumentManifest}
use yomotsusaka.Vault.{FilePath, Codec}
use yomotsusaka.Pipeline.{Proposer}
use yomotsusaka.SearchGateway.{SearchGateway}
use yomotsusaka.Snapshot.{IndexFiles, Attempt, snapshot}
use yomotsusaka.BatchQueue.{pending, done, failed, BatchState, Batches}
use yomotsusaka.BatchRunner.{
  InboxFile, RunState, BatchSummary, DirectoryResult, summarised, end_batch, refs_of,
}

-- Where the batch of a run ends, by its files and the manifests committed.
abbrev pub Ends : List InboxFile → List DocumentManifest → BatchState → Type 0
Ends [] manifests b = b.status ≡ pending
Ends (file ∷ files) [] b = b.status ≡ failed
Ends (file ∷ files) (m ∷ manifests) b = (b.status ≡ done) × (b.manifests ≡ m ∷ manifests)

module _ (hexdigest path_digest : Text → Text) (codec : Codec) (propose : Proposer)
    (root : FilePath) (error_of : ℕ → Text) (dump : DocumentManifest → Text)
    (validate_json : Text → Option DocumentManifest) (system : ℕ → Attempt) (made : Bool)
    (index_files : IndexFiles) (batch_id : Text) (started finished_at : ℕ) where
  -- A run that ended with a summary, and what the summary says.
  pub record Reports (files : List InboxFile) (before : SearchGateway) (result : DirectoryResult)
      : Type 0 where
    pub summary : BatchSummary
    pub state : RunState
    pub queue : Batches
    pub index_left : IndexFiles
    pub manifests : List DocumentManifest
    pub batch : BatchState
    pub result_is : result ≡ summarised summary state queue index_left
    pub submitted : summary.submitted_count ≡ length files
    pub counted : summary.committed_count + summary.failed_count ≡ summary.submitted_count
    pub committed : summary.committed_count ≡ length manifests
    pub all_indexed : state.gateway.manifests ≡ before.manifests ++ manifests
    pub stored : queue batch_id ≡ some batch
    pub ends : Ends files manifests batch
    pub persisted :
        let w = snapshot dump validate_json state.gateway made system index_files in
        (summary.index_persisted ≡ w.returns) × (index_left ≡ w.files)

  -- A terminal call that succeeds and leaves the batch where it belongs.
  abbrev EndsWell : List InboxFile → Batches → List DocumentManifest → List Text → Type 0
  EndsWell files q manifests failed_refs =
      (q' : Batches) × (b : BatchState) × (end_batch error_of batch_id finished_at (refs_of files)
          manifests failed_refs q
        ≡ ok q')
      × (q' batch_id ≡ some b)
      × Ends files manifests b
