-- ===== src/SpanProposer/Runs.antt =====
-- Runs of the pipeline whose spans come from a backend.
use yomotsusaka.Prelude.{
  Text, codes, Option, some, List, [], ◌∷◌, ◌++◌, ◌≡◌, All, arith, Result, ok, Result-cases, inl,
  inr,
}
use yomotsusaka.Schemas.{ArtifactHandle}
use yomotsusaka.Redactor.{Span, Redaction}
use yomotsusaka.Redactor.Order.{IsProper}
use yomotsusaka.Redactor.Reveal.{reveal, IsForward}
use yomotsusaka.Validator.Spec.{IsClean}
use yomotsusaka.Vault.{FilePath, Disk, Codec, IsLawful, manifest_path, private_path, restore}
use yomotsusaka.Pipeline.{Proposer, PipelineError, choose_spans, manifest_for, process_document}
use yomotsusaka.Pipeline.Laws.{process_document_restorable, prepare_ok, process_document_ok}
use yomotsusaka.SpanProposer.{Json, propose_by_inference, spans_or_none}
use yomotsusaka.SpanProposer.Responses.{propose_by_inference-IsProper}

proper-IsForward : (text : Text) (ss : List Span) → All (IsProper text) ss → All IsForward ss
proper-IsForward text [] h = tt
proper-IsForward text (s ∷ ss) h = (ground arith, proper-IsForward text ss h.1)

module _ (loads : Text → Option Json) (generate : Text → Option Text) (prompt : Text → Text) where
  -- The proposer as the pipeline takes it: a function that may raise.
  abbrev pub by_inference : Proposer
  by_inference raw_text = spans_or_none (propose_by_inference loads generate prompt raw_text)

  chosen-IsProper :
      (text : Text) (ss : List Span)
      → choose_spans [] (some by_inference) text ≡ ok ss
      → All (IsProper text) ss
  unfolding choose_spans
  chosen-IsProper text ss h =
      elim (Result-cases (propose_by_inference loads generate prompt text)) [
        | inl (proposed, e) ↦
            propose_by_inference-IsProper loads generate prompt text ss (ground arith)
        | inr (cause, e) ↦ absurd (ground arith)
      ]

  module _ (hexdigest : Text → Text) (codec : Codec) (doc_id text : Text) (root : FilePath)
      (d : Disk) (resolve : FilePath → FilePath) where
    abbrev inferred : Result PipelineError ArtifactHandle × Disk
    inferred = process_document hexdigest codec doc_id text [] root (some by_inference) d

    -- If the codec is lawful and the vault's own two paths are resolved already, then a run of the
    -- pipeline with a backend as its proposer that succeeds leaves a clean manifest on the disk
    -- and restores its dictionary, and the two give the document back, whatever the backend
    -- answers.
    pub process_document-by_inference :
        {h : ArtifactHandle}
        → IsLawful codec
        → resolve (root ++ codes "private" ∷ []) ≡ root ++ codes "private" ∷ []
        → resolve (private_path root doc_id) ≡ private_path root doc_id
        → inferred.0 ≡ ok h
        → (r : Redaction) × (inferred.1.files (manifest_path root doc_id)
            ≡ some (codec.dump_manifest (manifest_for doc_id r)))
          × (restore codec resolve h root inferred.1 ≡ ok r.private_dict)
          × IsClean (manifest_for doc_id r) r.private_dict
          × (reveal r ≡ text)
    process_document-by_inference lawful top path done =
        let (r, p, c, e) =
          process_document_ok hexdigest codec doc_id text [] (some by_inference) root d _ done in
        let (ss, chosen, redacted, clean) =
          prepare_ok hexdigest codec doc_id text [] (some by_inference) r p in
        process_document_restorable hexdigest codec doc_id text [] (some by_inference) root d
          resolve lawful top path chosen (proper-IsForward text ss (chosen-IsProper text ss chosen))
          done
