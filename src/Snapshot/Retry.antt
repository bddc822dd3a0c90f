-- ===== src/Snapshot/Retry.antt =====
-- How a snapshot ends: within its two attempts, whatever the system does.
use yomotsusaka.Prelude.{
  ℕ, ◌≤◌, Text, Bool, true, false, Option, none, some, ◌≡◌, ◌⊎◌, inl, inr, refl, sym, ◌∙◌, arith,
}
use yomotsusaka.Schemas.{DocumentManifest}
use yomotsusaka.SearchGateway.{SearchGateway}
use yomotsusaka.Snapshot.{
  IndexFiles, Attempt, succeeds, open_fails, write_fails, replace_fails, remove_tmp, attempt_write,
  Written, or_again, write_with_retry, jsonl, snapshot,
}
use yomotsusaka.Snapshot.Latest.{keep_last, latest_of-keep_last}

-- What a call may end in, told from the files before it.
abbrev pub Outcome : Text → (ℕ → Attempt) → IndexFiles → Written → Type 0
Outcome content system files w =
    ((w.returns ≡ true)
      × (w.files.final ≡ some content)
      × (w.files.tmp ≡ none)
      × ((system 0 ≡ succeeds) ⊎ (system 1 ≡ succeeds)))
    ⊎ ((w.returns ≡ false)
        × (w.files.final ≡ files.final)
        × ¬ (system 0 ≡ succeeds)
        × ¬ (system 1 ≡ succeeds))

-- One attempt writes everything, or fails and leaves the final file as it was.
data Attempted (content : Text) (files : IndexFiles) : Attempt → IndexFiles × Bool → Type 0 where
  written : Attempted content files succeeds (record { tmp = none; final = some content }, true)
  failed :
      {attempt : Attempt} {after : IndexFiles}
      → ¬ (attempt ≡ succeeds)
      → after.final ≡ files.final
      → Attempted content files attempt (after, false)

removed_final :
    (removed : Bool) (files : IndexFiles) → (remove_tmp removed files).final ≡ files.final
removed_final true files = refl
removed_final false files = refl

attempt_write-Attempted :
    (content : Text) (attempt : Attempt) (files : IndexFiles)
    → Attempted content files attempt (attempt_write content attempt files)
attempt_write-Attempted content succeeds files = written
attempt_write-Attempted content (open_fails removed) files =
    failed (λ e. cc) (removed_final removed files)
attempt_write-Attempted content (write_fails left removed) files =
    failed (λ e. cc) (removed_final removed (record files { tmp = some left }))
attempt_write-Attempted content (replace_fails removed) files =
    failed (λ e. cc) (removed_final removed (record files { tmp = some content }))

module _ (content : Text) (system : ℕ → Attempt) (files : IndexFiles) where
  -- The end after the second attempt, the first of which has failed.
  second_end :
      (attempt : Attempt) (between : IndexFiles) (r : IndexFiles × Bool)
      → system 1 ≡ attempt
      → ¬ (system 0 ≡ succeeds)
      → between.final ≡ files.final
      → Attempted content between attempt r
      → let w = or_again (write_with_retry content system 0 2 1) 1 r in
        Outcome content system files w × (w.announced ≤ 1)
  unfolding write_with_retry
  second_end _ between _ e first same written = (inl (refl, refl, refl, inr e), omega arith)
  second_end attempt between _ e first same (failed never kept) =
      (inr (refl, kept ∙ same, first, λ s. never (sym e ∙ s)), omega arith)

  first_end :
      (attempt : Attempt) (r : IndexFiles × Bool)
      → system 0 ≡ attempt
      → Attempted content files attempt r
      → let w = or_again (write_with_retry content system 1 1 1) 0 r in
        Outcome content system files w × (w.announced ≤ 1)
  unfolding write_with_retry
  first_end _ _ e written = (inl (refl, refl, refl, inl e), omega arith)
  first_end attempt _ e (failed {after = after} never kept) =
      second_end (system 1) after _ refl (λ s. never (sym e ∙ s)) kept
        (attempt_write-Attempted content (system 1) after)

  write_with_retry-Outcome :
      let w = write_with_retry content system 2 0 0 files in
      Outcome content system files w × (w.announced ≤ 1)
  unfolding write_with_retry
  write_with_retry-Outcome =
      first_end (system 0) _ refl (attempt_write-Attempted content (system 0) files)

module _ (dump : DocumentManifest → Text) (validate_json : Text → Option DocumentManifest) where
  -- Whatever the system does in the attempts, a snapshot whose directory exists comes to an end
  -- after at most two of them. Either it returns, one of the two attempts succeeded, the final
  -- file holds a line for each manifest that no later one of the same id replaces, and no
  -- temporary file is left; or it raises, neither attempt succeeded, and the final file is as it
  -- was. The retry is announced at most once.
  pub snapshot-Outcome :
      (gateway : SearchGateway) (system : ℕ → Attempt) (files : IndexFiles)
      → let w = snapshot dump validate_json gateway true system files in
        Outcome (jsonl dump validate_json (keep_last gateway.manifests)) system files w
        × (w.announced ≤ 1)
  unfolding snapshot
  snapshot-Outcome gateway system files =
      rw (← latest_of-keep_last gateway.manifests) (write_with_retry-Outcome _ system files)
