-- ===== src/Examples/Documents.antt =====
-- Concrete documents, with the theorems on the redactor, the validator, the vault and the pipeline.
use yomotsusaka.Prelude.{
  map, Text, codes, eq_text, false, none, some, List, [], ◌∷◌, ◌≡◌, ◌↔◌, refl, All, Result, ok, err,
  arith,
}
use yomotsusaka.Schemas.{person, org, PrivateDictEntry, DocumentManifest, ArtifactHandle}
use yomotsusaka.Charset.{is_name, is_name_char, is_traversal}
use yomotsusaka.Redactor.{Span, Redaction, redact, make_key}
use yomotsusaka.Redactor.Greedy.{IsGreedy, entry_for, label_of, label_for, redact-IsGreedy}
use yomotsusaka.Redactor.Reveal.{reveal, IsForward, reveal-redact}
use yomotsusaka.Redactor.Keys.{IsHexDigest}
use yomotsusaka.Validator.{is_hex, validate}
use yomotsusaka.Validator.Spec.{IsClean, NoLeak}
use yomotsusaka.Validator.Checks.{validate_iff}
use yomotsusaka.Vault.{FilePath, Disk, commit, restore, manifest_path, private_path, write_text}
use yomotsusaka.Vault.Laws.{restore-commit, restore_confined}
use yomotsusaka.Pipeline.{
  PipelineError, bad_doc_id, choose_spans, manifest_for, validate_doc_id, stem_of, upper, prepare,
  process_document,
}
use yomotsusaka.Pipeline.Names.{IsDocId, validate_doc_id_iff}
use yomotsusaka.Pipeline.Laws.{
  validate-redact, process_document_refused, process_document_restorable,
}
use yomotsusaka.Examples.Wire.{codec, codec-IsLawful}

-- Sixty-four digits, whatever the value.
abbrev pub hexdigest : Text → Text
hexdigest value = codes "0123456789abcdef0123456789abcdef0123456789abcdef0123456789abcdef"

pub hexdigest-IsHexDigest : IsHexDigest hexdigest
unfolding is_hex
hexdigest-IsHexDigest = record { digits = λ v. refl; hexadecimal = λ v. refl }

abbrev pub letter : Text
letter = codes "Dear Ann, call Bo."

abbrev pub letter_spans : List Span
letter_spans =
    record { start = 15; end = 17; kind = org } ∷ record { start = 5; end = 8; kind = person } ∷ []

pub letter_spans-IsForward : All IsForward letter_spans
letter_spans-IsForward = (omega arith, (omega arith, tt))

abbrev pub vault : FilePath
vault = codes "vault" ∷ []

abbrev pub empty_disk : Disk
empty_disk = record { files = λ path. none; refuses = λ path. false }

abbrev pub same_path : FilePath → FilePath
same_path path = path

reveal-redact_example : reveal (redact hexdigest letter letter_spans) ≡ letter
reveal-redact_example = reveal-redact hexdigest letter letter_spans letter_spans-IsForward

pub letter_chosen : choose_spans letter_spans none letter ≡ ok letter_spans
unfolding choose_spans
letter_chosen = refl

pub letter_processed :
    (process_document hexdigest codec (codes "memo.1") letter letter_spans vault none empty_disk).0
    ≡ ok (record { doc_id = codes "memo.1"; vault_path = private_path vault (codes "memo.1") })
unfolding process_document prepare validate_doc_id is_name is_name_char is_traversal stem_of upper
    eq_text choose_spans redact validate commit write_text make_key
letter_processed = refl

abbrev pub letter_redaction : Redaction
letter_redaction = redact hexdigest letter letter_spans

abbrev pub letter_manifest : DocumentManifest
letter_manifest = manifest_for (codes "memo.1") letter_redaction

redact-IsGreedy_example :
    let out = redact hexdigest letter letter_spans in
    (chosen : List Span) × IsGreedy letter letter_spans chosen
    × (out.private_dict ≡ map (entry_for hexdigest letter) chosen)
    × (map (label_of hexdigest letter) out.entity_records ≡ map (label_for hexdigest letter) chosen)
redact-IsGreedy_example = redact-IsGreedy hexdigest letter letter_spans

validate_iff_example :
    (validate letter_manifest letter_redaction.private_dict ≡ none)
    ↔ IsClean letter_manifest letter_redaction.private_dict
validate_iff_example = validate_iff letter_manifest letter_redaction.private_dict

validate-redact_example :
    (validate letter_manifest letter_redaction.private_dict ≡ none)
    ↔ All (NoLeak letter_redaction.redacted_text) letter_redaction.private_dict
validate-redact_example =
    validate-redact hexdigest (codes "memo.1") letter letter_spans hexdigest-IsHexDigest

validate_doc_id_iff_example :
    (validate_doc_id (codes "nul.txt") ≡ ok tt) ↔ IsDocId (codes "nul.txt")
validate_doc_id_iff_example = validate_doc_id_iff (codes "nul.txt")

abbrev pub stored : List PrivateDictEntry
stored =
    record { key = codes "<PERSON_00000000>"; original_value = codes "Ann"; kind = person } ∷ []

abbrev pub committed_disk : Disk
committed_disk = (commit codec letter_manifest stored vault empty_disk).1

letter_committed :
    (commit codec letter_manifest stored vault empty_disk).0
    ≡ ok (record { doc_id = codes "memo.1"; vault_path = private_path vault (codes "memo.1") })
unfolding commit write_text
letter_committed = refl

restore_confined_example :
    (r : FilePath) × (private_path vault (codes "memo.1") ≡ codes "vault" ∷ codes "private" ∷ r)
restore_confined_example =
    restore_confined codec same_path vault
      (record { doc_id = codes "memo.1"; vault_path = private_path vault (codes "memo.1") })
      committed_disk letter_restored
  where
    letter_restored :
        restore codec same_path
          (record { doc_id = codes "memo.1"; vault_path = private_path vault (codes "memo.1") })
          vault
          committed_disk
        ≡ ok stored
    letter_restored =
        restore-commit codec same_path vault letter_manifest stored empty_disk codec-IsLawful refl
          refl letter_committed

slash_refused :
    (process_document hexdigest codec (codes "a/b") letter letter_spans vault none empty_disk).0
    ≡ err bad_doc_id
unfolding process_document prepare validate_doc_id is_name is_name_char
slash_refused = refl

process_document_refused_example :
    (process_document hexdigest codec (codes "a/b") letter letter_spans vault none empty_disk).1
    ≡ empty_disk
process_document_refused_example =
    process_document_refused hexdigest codec (codes "a/b") letter letter_spans none vault empty_disk
      bad_doc_id slash_refused (λ v e. cc)

abbrev letter_run : Result PipelineError ArtifactHandle × Disk
letter_run =
    process_document hexdigest codec (codes "memo.1") letter letter_spans vault none empty_disk

process_document_restorable_example :
    (r : Redaction) × (letter_run.1.files (manifest_path vault (codes "memo.1"))
      ≡ some (codec.dump_manifest (manifest_for (codes "memo.1") r)))
    × (restore codec same_path
          (record { doc_id = codes "memo.1"; vault_path = private_path vault (codes "memo.1") })
          vault
          letter_run.1
        ≡ ok r.private_dict)
    × IsClean (manifest_for (codes "memo.1") r) r.private_dict
    × (reveal r ≡ letter)
process_document_restorable_example =
    process_document_restorable hexdigest codec (codes "memo.1") letter letter_spans none vault
      empty_disk same_path codec-IsLawful refl refl letter_chosen letter_spans-IsForward
      letter_processed
