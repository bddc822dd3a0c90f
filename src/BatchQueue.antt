-- ===== src/BatchQueue.antt =====
-- The batch queue (src/yomotsusaka/batch_queue.py). Identifiers and times come from outside. A call
-- that raises does so before it changes anything, so an error leaves the queue as it was.
pub mod Laws
use yomotsusaka.Prelude.{
  ℕ, Text, eq_text, Bool, true, false, Option, none, some, List, [], ◌∷◌, ◌++◌, Result, ok, err,
  ◌>>=◌, ◌>>◌, require, if◌then◌else◌,
}
use yomotsusaka.Schemas.{DocumentManifest}

pub data BatchStatus : Type 0 where
  pending running done failed : BatchStatus

pub record BatchState : Type 0 where
  pub status : BatchStatus
  pub doc_refs : List Text
  pub manifests : List DocumentManifest
  pub errors : List Text
  pub started_at : Option ℕ
  pub finished_at : Option ℕ

-- `_batches`
abbrev pub Batches : Type 0
Batches = Text → Option BatchState

-- `self._batches[batch_id] = batch`
unfoldable pub put_batch : Text → BatchState → Batches → Batches
put_batch id batch q other = if eq_text id other then some batch else q other

pub data QueueError : Type 0 where
  unknown_batch : QueueError
  wrong_status : BatchStatus → QueueError

-- `_get`
abbrev pub get_batch : Option BatchState → Result QueueError BatchState
get_batch none = err unknown_batch
get_batch (some batch) = ok batch

abbrev pub is_pending : BatchStatus → Bool
is_pending pending = true
is_pending _ = false

abbrev pub is_running : BatchStatus → Bool
is_running running = true
is_running _ = false

abbrev pub new_batch : List Text → BatchState
new_batch refs = record {
  status = pending;
  doc_refs = refs;
  manifests = [];
  errors = [];
  started_at = none;
  finished_at = none;
}

abbrev pub begun : ℕ → BatchState → BatchState
begun now batch = record batch { status = running; started_at = some now }

abbrev pub completed : ℕ → List DocumentManifest → BatchState → BatchState
completed now manifests batch = record batch {
  status = done;
  manifests = manifests;
  finished_at = some now;
}

abbrev pub gave_up : ℕ → Text → BatchState → BatchState
gave_up now error batch = record batch {
  status = failed;
  errors = batch.errors ++ error ∷ [];
  finished_at = some now;
}

-- A call of one of the operations that change the queue.
pub data Call : Type 0 where
  submit : Text → List Text → Call
  start : Text → ℕ → Call
  complete : Text → ℕ → List DocumentManifest → Call
  fail : Text → ℕ → Text → Call

-- What a call may do to one batch: refuse it, or replace it.
unfoldable pub change_batch :
    Text → (BatchStatus → Bool) → (BatchState → BatchState) → Batches → Result QueueError Batches
change_batch id test change q = do
  batch ← get_batch (q id)
  require (test batch.status) (wrong_status batch.status)
  ok (put_batch id (change batch) q)

-- `submit`, `start`, `complete` and `fail`
unfoldable pub call_queue : Call → Batches → Result QueueError Batches
unfolding change_batch put_batch
call_queue (submit id refs) q = ok (put_batch id (new_batch refs) q)
call_queue (start id now) q = change_batch id is_pending (begun now) q
call_queue (complete id now manifests) q = change_batch id is_running (completed now manifests) q
call_queue (fail id now error) q = change_batch id is_running (gave_up now error) q
