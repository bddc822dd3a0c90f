-- ===== src/Pipeline/Laws.antt =====
-- What a run of the pipeline leaves behind, on success and on failure.
use yomotsusaka.Prelude.{
  Text, codes, Option, none, some, List, [], ◌∷◌, ◌++◌, ◌≡◌, ◌≢◌, ◌↔◌, inl, inr, refl, sym, All,
  arith, Result, ok, err, Result-cases, >>=-eq-ok, subst, pos,
}
use yomotsusaka.Schemas.{ArtifactHandle}
use yomotsusaka.Redactor.{Span, Redaction, redact}
use yomotsusaka.Redactor.Plan.{plan_of, redact_plan}
use yomotsusaka.Redactor.Keys.{
  IsHexDigest, records-Occurs, entries-Occurs, entity_keys-records, records-IsPlaceholder,
  entries-IsPlaceholder,
}
use yomotsusaka.Redactor.Reveal.{reveal, IsForward, reveal-redact}
use yomotsusaka.Validator.{ValidationError, validate}
use yomotsusaka.Validator.Spec.{Has, NoLeak, IsClean}
use yomotsusaka.Validator.Checks.{validate_iff}
use yomotsusaka.Vault.{
  FilePath, Disk, VaultError, Codec, IsLawful, manifest_path, private_path, commit, restore,
}
use yomotsusaka.Vault.Laws.{commit_files, restore-commit}
use yomotsusaka.Pipeline.{
  validate_doc_id, PipelineError, vault_failed, Proposer, choose_spans, manifest_for, checked,
  prepare, commit_outcome, process_document,
}

module _ (hexdigest : Text → Text) (doc_id text : Text) where
  -- If the digest is sixty-four hexadecimal digits, then of a manifest that `redact` made the
  -- validator can refuse only that a raw value is still in the text: it accepts the manifest if
  -- and only if no value of the dictionary that is not empty occurs in the redacted text.
  pub validate-redact :
      (spans : List Span)
      → IsHexDigest hexdigest
      → let r = redact hexdigest text spans in
        (validate (manifest_for doc_id r) r.private_dict ≡ none)
        ↔ All (NoLeak r.redacted_text) r.private_dict
  validate-redact spans hex =
      let plan = plan_of hexdigest text spans in
      rw redact_plan (
        (λ h. ((validate_iff _ _).0 h).no_leaks),
        (λ h. (validate_iff _ _).1 (record {
          no_leaks = h;
          entities_present = records-Occurs hexdigest text plan [] 0 (pos 0);
          entries_present = entries-Occurs hexdigest text plan [] 0;
          same_keys = λ k. (
            subst (Has k) (entity_keys-records hexdigest text plan (pos 0)),
            subst (Has k) (sym (entity_keys-records hexdigest text plan (pos 0))),
          );
          entity_shapes = records-IsPlaceholder hexdigest text hex plan (pos 0);
          entry_shapes = entries-IsPlaceholder hexdigest text hex plan;
        })),
      )

commit_outcome_ok :
    (c : Result VaultError ArtifactHandle × Disk) (h : ArtifactHandle)
    → (commit_outcome c).0 ≡ ok h
    → c.0 ≡ ok h
commit_outcome_ok (ok x, d) h e = cc
commit_outcome_ok (err x, d) h e = cc

commit_outcome-disk : (c : Result VaultError ArtifactHandle × Disk) → (commit_outcome c).1 ≡ c.1
commit_outcome-disk (ok x, d) = refl
commit_outcome-disk (err x, d) = refl

checked_ok : (o : Option ValidationError) → checked o ≡ ok tt → o ≡ none
checked_ok none h = refl
checked_ok (some e) h = cc

module _ (hexdigest : Text → Text) (codec : Codec) (doc_id text : Text) (spans : List Span)
    (proposer : Option Proposer) where
  pub prepare_ok :
      (r : Redaction)
      → prepare hexdigest codec doc_id text spans proposer ≡ ok r
      → (ss : List Span) × (choose_spans spans proposer text ≡ ok ss)
        × (redact hexdigest text ss ≡ r)
        × (validate (manifest_for doc_id r) r.private_dict ≡ none)
  unfolding prepare
  prepare_ok r h =
      let (_, _, h1) = >>=-eq-ok (validate_doc_id doc_id) _ h in
      let (ss, chosen, h2) = >>=-eq-ok (choose_spans spans proposer text) _ h1 in
      let (_, passed, same) = >>=-eq-ok _ _ h2 in
      let e : redact hexdigest text ss ≡ r = cc same in
      let r' = redact hexdigest text ss in
      let clean : validate (manifest_for doc_id r') r'.private_dict ≡ none = checked_ok _ passed in
      (ss, chosen, e, subst (λ q. validate (manifest_for doc_id q) q.private_dict ≡ none) e clean)

  module _ (root : FilePath) (d : Disk) where
    abbrev run : Result PipelineError ArtifactHandle × Disk
    run = process_document hexdigest codec doc_id text spans root proposer d

    -- A run of the pipeline that fails with an error other than that of the vault itself leaves
    -- the disk as it was.
    pub process_document_refused :
        (e : PipelineError) → run.0 ≡ err e → ((v : VaultError) → e ≢ vault_failed v) → run.1 ≡ d
    unfolding process_document
    process_document_refused e h early =
        elim (Result-cases (prepare hexdigest codec doc_id text spans proposer)) [
          | inl (r, p) ↦
              elim (Result-cases (commit codec (manifest_for doc_id r) r.private_dict root d).0) [
                | inl (_, c) ↦ absurd (ground arith)
                | inr (v, c) ↦ absurd (early v (ground arith))
              ]
          | inr (x, p) ↦ rw p
        ]

    pub process_document_ok :
        (h : ArtifactHandle)
        → run.0 ≡ ok h
        → (r : Redaction) × (prepare hexdigest codec doc_id text spans proposer ≡ ok r)
          × ((commit codec (manifest_for doc_id r) r.private_dict root d).0 ≡ ok h)
          × (run.1 ≡ (commit codec (manifest_for doc_id r) r.private_dict root d).1)
    unfolding process_document
    process_document_ok h done =
        elim (Result-cases (prepare hexdigest codec doc_id text spans proposer)) [
          | inl (r, p) ↦
              let committed = commit codec (manifest_for doc_id r) r.private_dict root d in
              (
                r,
                p,
                commit_outcome_ok committed h (rw p at done),
                rw p (commit_outcome-disk committed),
              )
          | inr (x, p) ↦ absurd (ground arith)
        ]

  module _ (root : FilePath) (d : Disk) (resolve : FilePath → FilePath) where
    abbrev after : Result PipelineError ArtifactHandle × Disk
    after = process_document hexdigest codec doc_id text spans root proposer d

    -- If the codec is lawful, the vault's own two paths are resolved already, the spans come from
    -- exactly one source and none of them ends before it starts, then a run that succeeds leaves a
    -- manifest on the disk that is clean, the restored dictionary is that manifest's, and the two
    -- give the document back.
    pub process_document_restorable :
        {ss : List Span} {h : ArtifactHandle}
        → IsLawful codec
        → resolve (root ++ codes "private" ∷ []) ≡ root ++ codes "private" ∷ []
        → resolve (private_path root doc_id) ≡ private_path root doc_id
        → choose_spans spans proposer text ≡ ok ss
        → All IsForward ss
        → after.0 ≡ ok h
        → (r : Redaction) × (after.1.files (manifest_path root doc_id)
            ≡ some (codec.dump_manifest (manifest_for doc_id r)))
          × (restore codec resolve h root after.1 ≡ ok r.private_dict)
          × IsClean (manifest_for doc_id r) r.private_dict
          × (reveal r ≡ text)
    process_document_restorable {ss} {h} lawful top path chosen forward done =
        let (r, p, c, e) = process_document_ok root d h done in
        let (ss', chosen', redacted, clean) = prepare_ok r p in
        let m = manifest_for doc_id r in
        let same : ss' ≡ ss = cc (chosen, chosen') in
        (
          r,
          rw e (commit_files codec m r.private_dict root d c).0,
          rw e (restore-commit codec resolve root m r.private_dict d lawful top path c),
          (validate_iff m r.private_dict).0 clean,
          rw (← redacted, same) (reveal-redact hexdigest text ss forward),
        )
