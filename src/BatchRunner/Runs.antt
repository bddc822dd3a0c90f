-- ===== src/BatchRunner/Runs.antt =====
-- What one file and the loop over the files come to.
use yomotsusaka.Prelude.{
  ℕ, ◌+◌, suc, Text, true, Option, none, some, List, [], ◌∷◌, ◌++◌, length, append_assoc,
  append-nil, ◌≡◌, inl, inr, refl, sym, ap, ◌∙◌, arith, Result, ok, err, Result-cases,
}
use yomotsusaka.Schemas.{DocumentManifest}
use yomotsusaka.Redactor.{Span}
use yomotsusaka.Vault.{FilePath, Disk, Codec}
use yomotsusaka.Pipeline.{
  Proposer, PipelineError, ambiguous_spans, prepare, choose_spans, validate_doc_id,
  process_document,
}
use yomotsusaka.Boundary.Resolver.{
  ProcessError, kernel_failed, bad_locator, process_document_request, public_handle_for,
}
use yomotsusaka.QueryResolver.{Registry, register_entries}
use yomotsusaka.SearchGateway.{SearchGateway, index}
use yomotsusaka.BatchRunner.{
  InboxFile, derive_doc_id, RunState, Processed, committed, not_committed, aborted, are_specs,
  load_step, process_step, propose_step, read_step, process_one, RunResult, finished, run_aborted,
  add_manifest, add_failed, after_one, run_files,
}

-- Spans that `SpanSpec` accepts, whenever the proposer returns any.
abbrev pub ProposesSpecs : Proposer → Type 0
ProposesSpecs propose =
    (t : Text) (spans : List Span) → propose t ≡ some spans → are_specs spans ≡ true

-- What one file does to the gateway: nothing, or it adds the manifest that is returned.
abbrev pub Indexes : SearchGateway → Processed × RunState → Type 0
Indexes gateway (committed m, s) = s.gateway.manifests ≡ gateway.manifests ++ m ∷ []
Indexes gateway (not_committed, s) = s.gateway ≡ gateway
Indexes gateway (aborted, s) = ⊥

index_resolved :
    (m : DocumentManifest) (gateway : SearchGateway) (o : Option Registry)
    → gateway.resolver ≡ o
    → (g : SearchGateway) × (index m [] gateway ≡ (ok tt, g))
      × (g.manifests ≡ gateway.manifests ++ m ∷ [])
unfolding index register_entries
index_resolved m gateway none e =
    let manifests = gateway.manifests ++ m ∷ [] in
    (
      record { manifests = manifests; resolver = none },
      rw (e, index) (ap (λ r. (ok tt, record { manifests = manifests; resolver = r })) e),
      refl,
    )
index_resolved m gateway (some entries) e = (
  record { manifests = gateway.manifests ++ m ∷ []; resolver = some entries },
  rw (e, index) refl,
  refl,
)

load_step-Indexes :
    (o : Option DocumentManifest) (d : Disk) (gateway : SearchGateway)
    → Indexes gateway (load_step o d gateway)
load_step-Indexes none d gateway = refl
load_step-Indexes (some m) d gateway =
    let (g, e, same) = index_resolved m gateway gateway.resolver refl in rw e same

-- What a loop that has come to its end tells of `n` files.
abbrev pub Completed : ℕ → SearchGateway → RunResult → Type 0
Completed n gateway (run_aborted s) = ⊥
Completed n gateway (finished s manifests failed_refs) =
    (length manifests + length failed_refs ≡ n)
    × (s.gateway.manifests ≡ gateway.manifests ++ manifests)

module _ (hexdigest path_digest : Text → Text) (codec : Codec) (propose : Proposer)
    (root : FilePath) (specs : ProposesSpecs propose) where
  process_step-Indexes :
      (doc_id : Text) (run : Result ProcessError Text × Disk) (gateway : SearchGateway)
      → Indexes gateway (process_step hexdigest path_digest codec propose root doc_id run gateway)
  process_step-Indexes doc_id (err cause, d) gateway = refl
  process_step-Indexes doc_id (ok handle, d) gateway = load_step-Indexes _ d gateway

  propose_step-Indexes :
      (doc_id raw_text : Text) (o : Option (List Span)) (s : RunState)
      → propose raw_text ≡ o
      → Indexes s.gateway
          (propose_step hexdigest path_digest codec propose root doc_id raw_text o s)
  propose_step-Indexes doc_id raw_text none s e = refl
  propose_step-Indexes doc_id raw_text (some spans) s e = rw (specs raw_text spans e) (
      process_step-Indexes doc_id
        (process_document_request hexdigest codec doc_id raw_text spans root s.disk) s.gateway)

  read_step-Indexes :
      (file : InboxFile) (o : Option Text) (s : RunState)
      → Indexes s.gateway (read_step hexdigest path_digest codec propose root file o s)
  read_step-Indexes file none s = refl
  read_step-Indexes file (some raw_text) s = propose_step-Indexes _ raw_text _ s refl

  process_one-Indexes :
      (file : InboxFile) (s : RunState)
      → Indexes s.gateway (process_one hexdigest path_digest codec propose root file s)
  unfolding process_one
  process_one-Indexes file s = read_step-Indexes file file.content s

  after_one-Completed :
      (ref : Text) (files : List InboxFile) (gateway : SearchGateway) (p : Processed × RunState)
      → Indexes gateway p
      → ((s : RunState)
          → Completed
              (length files)
              s.gateway
              (run_files hexdigest path_digest codec propose root files s))
      → Completed
          (suc (length files))
          gateway
          (after_one ref (run_files hexdigest path_digest codec propose root files) p)
  after_one-Completed ref files gateway (committed m, s) h rest =
      added m (run_files hexdigest path_digest codec propose root files s) h (rest s)
    where
      added :
          (m : DocumentManifest) (r : RunResult)
          → s.gateway.manifests ≡ gateway.manifests ++ m ∷ []
          → Completed (length files) s.gateway r
          → Completed (suc (length files)) gateway (add_manifest m r)
      added m (run_aborted t) e k = k
      added m (finished t manifests failed_refs) e (count, all) = (
        omega arith,
        all ∙ ap (λ l. l ++ manifests) e ∙ append_assoc gateway.manifests (m ∷ []) manifests,
      )
  after_one-Completed ref files gateway (not_committed, s) h rest =
      failed_one (run_files hexdigest path_digest codec propose root files s) h (rest s)
    where
      failed_one :
          (r : RunResult)
          → s.gateway ≡ gateway
          → Completed (length files) s.gateway r
          → Completed (suc (length files)) gateway (add_failed ref r)
      failed_one (run_aborted t) e k = k
      failed_one (finished t manifests failed_refs) e (count, all) =
          (omega arith, all ∙ ap (λ g. g.manifests ++ manifests) e)
  after_one-Completed ref files gateway (aborted, s) h rest = h

  pub run_files-Completed :
      (files : List InboxFile) (s : RunState)
      → Completed
          (length files)
          s.gateway
          (run_files hexdigest path_digest codec propose root files s)
  unfolding run_files
  run_files-Completed [] s = (refl, sym (append-nil s.gateway.manifests))
  run_files-Completed (file ∷ files) s =
      after_one-Completed file.ref files s.gateway
        (process_one hexdigest path_digest codec propose root file s) (process_one-Indexes file s)
        (run_files-Completed files)

module _ (hexdigest path_digest : Text → Text) (codec : Codec) (propose : Proposer)
    (root : FilePath) where
  prepare_nothing :
      (doc_id raw_text : Text)
      → (e : PipelineError) × (prepare hexdigest codec doc_id raw_text [] none ≡ err e)
  unfolding prepare choose_spans
  prepare_nothing doc_id raw_text = elim (Result-cases (validate_doc_id doc_id)) [
    | inl (done, e) ↦ (ambiguous_spans, rw (e, prepare) refl)
    | inr (cause, e) ↦ (cause, rw (e, prepare) refl)
  ]

  request_nothing :
      (doc_id raw_text : Text) (d : Disk)
      → (e : ProcessError) × (process_document_request hexdigest codec doc_id raw_text [] root d
          ≡ (err e, d))
  unfolding process_document_request process_document
  request_nothing doc_id raw_text d =
      let (cause, e) = prepare_nothing doc_id raw_text in
      elim (Result-cases (public_handle_for doc_id)) [
        | inl (handle, h) ↦ (kernel_failed cause, rw (h, e) refl)
        | inr (bad, h) ↦ (bad_locator bad, rw h refl)
      ]

  -- A file that can be read, and in which the proposer finds nothing, is not committed: the
  -- request that is sent for it has no spans and no proposer, which the pipeline refuses. The
  -- vault and the gateway stay as they were.
  pub process_one_nothing :
      (file : InboxFile) (raw_text : Text) (s : RunState)
      → file.content ≡ some raw_text
      → propose raw_text ≡ some []
      → process_one hexdigest path_digest codec propose root file s ≡ (not_committed, s)
  unfolding process_one are_specs
  process_one_nothing file raw_text s c p =
      let (cause, e) = request_nothing (derive_doc_id path_digest file) raw_text s.disk in
      rw (c, p, e) refl
