-- ===== src/Boundary/Resolver/Processed.antt =====
-- A processed document is found under its locator.
use yomotsusaka.Prelude.{
  Text, true, false, none, some, List, [], ◌∷◌, ◌≡◌, refl, ap, subst, ◌∙◌, All, arith, Result, ok,
  err, Result-cases, inl, inr,
}
use yomotsusaka.Schemas.{PrivateDictEntry, DocumentManifest, ArtifactHandle}
use yomotsusaka.Redactor.{Span, Redaction}
use yomotsusaka.Redactor.Reveal.{reveal, IsForward, reveal-redact}
use yomotsusaka.Validator.Spec.{IsClean}
use yomotsusaka.Validator.Checks.{validate_iff}
use yomotsusaka.Vault.{FilePath, Disk, Codec, IsLawful, manifest_path, private_path}
use yomotsusaka.Vault.Laws.{commit_files}
use yomotsusaka.Pipeline.{PipelineError, manifest_for, process_document, choose_spans}
use yomotsusaka.Pipeline.Laws.{prepare_ok, process_document_ok}
use yomotsusaka.Boundary.Locator.{LocatorError, parse_locator}
use yomotsusaka.Boundary.Locator.Laws.{parse_locator-build_locator}
use yomotsusaka.Boundary.Resolver.{
  ResolverScope, ordinary_agent, private_boundary, is_blank, exists, parse_entries, succeed,
  with_entries, materialise, resolve_parsed, resolve, from_manifest, inspected, view_manifest,
  parse_manifest, inspect_request, committed, status_report_request, status_of, handle_parts,
  public_handle_for, ProcessError, process_document_request, process_response, process_checked,
}

module _ (codec : Codec) (locator purpose doc_id : Text) (root : FilePath) (d : Disk)
    (m : DocumentManifest) (es : List PrivateDictEntry) (lawful : IsLawful codec)
    (stated : is_blank purpose ≡ false)
    (parses : parse_locator locator ≡ some (handle_parts doc_id))
    (manifest_there : d.files (manifest_path root doc_id) ≡ some (codec.dump_manifest m))
    (entries_there : d.files (private_path root doc_id) ≡ some (codec.dump_entries es)) where
  there : exists (manifest_path root doc_id) d ≡ true
  there = rw (manifest_there, exists)

  resolve_there :
      (scope : ResolverScope)
      → resolve codec locator scope purpose root d
        ≡ materialise codec locator (handle_parts doc_id) scope purpose root d
  unfolding resolve resolve_parsed
  resolve_there scope = rw (stated, parses, there, resolve_parsed)

  resolve_private :
      resolve codec locator private_boundary purpose root d
      ≡ succeed locator (handle_parts doc_id) purpose (
          some (record {
            manifest_path = manifest_path root doc_id;
            private_dict_path = private_path root doc_id;
            private_entries = es;
          }))
  unfolding materialise
  resolve_private =
      resolve_there private_boundary
      ∙ rw (entries_there, parse_entries, lawful.entries es, with_entries) refl

  inspect_there : inspect_request codec locator purpose root d ≡ inspected (from_manifest m)
  unfolding inspect_request materialise
  inspect_there =
      rw
        (
          inspect_request,
          resolve_there ordinary_agent,
          materialise,
          succeed,
          manifest_there,
          parse_manifest,
          lawful.manifests m,
          view_manifest,
        )
        refl

  status_there : status_report_request locator root d ≡ committed
  unfolding status_report_request
  status_there = rw (parses, status_of, there)

process_response_ok :
    (r : Result PipelineError ArtifactHandle × Disk) (locator : Text)
    → (process_response r).0 ≡ ok locator
    → (h : ArtifactHandle) × (r.0 ≡ ok h)
      × (public_handle_for h.doc_id ≡ ok locator)
      × ((process_response r).1 ≡ r.1)
process_response_ok (ok h, d) locator e = elim (Result-cases (public_handle_for h.doc_id)) [
  | inl (l, p) ↦ (h, refl, ground arith, refl)
  | inr (x, p) ↦ absurd (ground arith)
]
process_response_ok (err x, d) locator e = absurd (cc)

process_checked_ok :
    (c : Result LocatorError Text) (run : Result PipelineError ArtifactHandle × Disk) (d : Disk)
    (locator : Text)
    → (process_checked c run d).0 ≡ ok locator
    → (h : ArtifactHandle) × (run.0 ≡ ok h)
      × (public_handle_for h.doc_id ≡ ok locator)
      × ((process_checked c run d).1 ≡ run.1)
process_checked_ok (ok _) run d locator e = process_response_ok run locator e
process_checked_ok (err x) run d locator e = absurd (cc)

public_handle_for_parses :
    (doc_id locator : Text)
    → public_handle_for doc_id ≡ ok locator
    → parse_locator locator ≡ some (handle_parts doc_id)
unfolding public_handle_for
public_handle_for_parses doc_id locator h =
    parse_locator-build_locator (handle_parts doc_id) locator h

given_spans :
    (spans ss : List Span) (text : Text) → choose_spans spans none text ≡ ok ss → ss ≡ spans
unfolding choose_spans
given_spans [] ss text h = absurd (cc)
given_spans (x ∷ xs) ss text h = cc

module _ (hexdigest : Text → Text) (codec : Codec) (doc_id text : Text) (spans : List Span)
    (root : FilePath) (d : Disk) where
  abbrev response : Result ProcessError Text × Disk
  response = process_document_request hexdigest codec doc_id text spans root d

  -- If the codec is lawful, the purpose is not blank and no span ends before it starts, then
  -- everything that a successful request leaves behind is found again under the locator that it
  -- returns: the private boundary gets the dictionary of a manifest that is clean, an agent sees
  -- that manifest, the report is that it is committed, and the manifest's text and the dictionary
  -- give the document back.
  pub process_document_request_found :
      (locator purpose : Text)
      → IsLawful codec
      → is_blank purpose ≡ false
      → All IsForward spans
      → response.0 ≡ ok locator
      → (r : Redaction) × IsClean (manifest_for doc_id r) r.private_dict
        × (reveal r ≡ text)
        × (resolve codec locator private_boundary purpose root response.1
            ≡ succeed locator (handle_parts doc_id) purpose (
                some (record {
                  manifest_path = manifest_path root doc_id;
                  private_dict_path = private_path root doc_id;
                  private_entries = r.private_dict;
                })))
        × (inspect_request codec locator purpose root response.1
            ≡ inspected (from_manifest (manifest_for doc_id r)))
        × (status_report_request locator root response.1 ≡ committed)
  unfolding process_document_request
  process_document_request_found locator purpose lawful stated forward done =
      let run = process_document hexdigest codec doc_id text spans root none d in
      let (h, ran, built, disk) =
        process_checked_ok (public_handle_for doc_id) run d locator done in
      let (r, p, c, e) = process_document_ok hexdigest codec doc_id text spans none root d h ran in
      let (ss, chosen, redacted, clean) = prepare_ok hexdigest codec doc_id text spans none r p in
      let m = manifest_for doc_id r in
      let (stored, kept, named, _) = commit_files codec m r.private_dict root d c in
      let parses : parse_locator locator ≡ some (handle_parts doc_id) =
        public_handle_for_parses doc_id locator
          (subst (λ n. public_handle_for n ≡ ok locator) named built) in
      let there = λ (q : FilePath). ap (λ (x : Disk). x.files q) (disk ∙ e) in
      let stored' = there (manifest_path root doc_id) ∙ stored in
      let kept' = there (private_path root doc_id) ∙ kept in
      (
        r,
        (validate_iff m r.private_dict).0 clean,
        rw (← redacted, given_spans spans ss text chosen)
            (reveal-redact hexdigest text spans forward),
        resolve_private codec locator purpose doc_id root response.1 m r.private_dict lawful stated
            parses stored' kept',
        inspect_there codec locator purpose doc_id root response.1 m r.private_dict lawful stated
            parses stored' kept',
        status_there codec locator purpose doc_id root response.1 m r.private_dict lawful stated
            parses stored' kept',
      )
