-- ===== src/Examples/Proposals.antt =====
-- Rules and a backend on a concrete letter, with the theorems on the proposers of spans.
use yomotsusaka.Prelude.{
  Text, codes, eq_text, Option, some, [], ◌∷◌, ◌++◌, ◌≡◌, ◌⊎◌, refl, All, Result, ok, arith,
}
use yomotsusaka.Schemas.{person, org, ArtifactHandle}
use yomotsusaka.Redactor.{Span, Redaction, redact, make_key, sort_spans}
use yomotsusaka.Charset.{is_name, is_name_char, is_traversal}
use yomotsusaka.Redactor.Order.{IsIn, IsProper}
use yomotsusaka.Redactor.Plan.{plan_of}
use yomotsusaka.Redactor.Reveal.{reveal}
use yomotsusaka.Validator.{validate}
use yomotsusaka.Validator.Spec.{IsClean}
use yomotsusaka.Vault.{Disk, commit, write_text, restore, manifest_path, private_path}
use yomotsusaka.Pipeline.{
  PipelineError, manifest_for, process_document, prepare, validate_doc_id, stem_of, upper,
  choose_spans,
}
use yomotsusaka.SpanProposer.{
  Json, array, Rule, claim_matches, claim_rules, propose_by_rules, propose_by_inference,
  parse_payload, parse_elements, parse_element, field_of, find_kind, check_ends,
}
use yomotsusaka.SpanProposer.Claims.{
  claimed_before, Rival, plan_of-propose_by_rules, propose_by_rules-priority,
}
use yomotsusaka.SpanProposer.Responses.{
  answers_of, propose_by_inference-IsProper, propose_by_inference-answers_of,
}
use yomotsusaka.SpanProposer.Runs.{by_inference, process_document-by_inference}
use yomotsusaka.Examples.Wire.{codec, codec-IsLawful}
use yomotsusaka.Examples.Documents.{hexdigest, letter, letter_spans, vault, empty_disk, same_path}

abbrev org_rule : Rule
org_rule = record { finditer = λ t. (15, 17) ∷ []; kind = org }

abbrev person_rule : Rule
person_rule = record { finditer = λ t. (5, 8) ∷ (15, 17) ∷ []; kind = person }

proposed_letter : propose_by_rules (org_rule ∷ person_rule ∷ []) letter ≡ sort_spans letter_spans
unfolding propose_by_rules claim_rules claim_matches sort_spans
proposed_letter = refl

plan_of-propose_by_rules_example :
    plan_of hexdigest letter (propose_by_rules (org_rule ∷ person_rule ∷ []) letter)
    ≡ propose_by_rules (org_rule ∷ person_rule ∷ []) letter
plan_of-propose_by_rules_example =
    plan_of-propose_by_rules hexdigest (org_rule ∷ person_rule ∷ []) letter (
      ((omega arith, omega arith), tt),
      (((omega arith, omega arith), ((omega arith, omega arith), tt)), tt),
    )

propose_by_rules-priority_example :
    IsIn
      (record { start = 15; end = 17; kind = person })
      (propose_by_rules (org_rule ∷ person_rule ∷ []) letter)
    ⊎ ((s : Span) × IsIn s (claimed_before letter (org_rule ∷ []) person_rule ((5, 8) ∷ []))
        × IsIn s (propose_by_rules (org_rule ∷ person_rule ∷ []) letter)
        × Rival 15 17 s)
propose_by_rules-priority_example =
    propose_by_rules-priority (org_rule ∷ []) person_rule [] letter ((5, 8) ∷ []) [] 15 17 refl

abbrev loads : Text → Option Json
loads response = some (array (answers_of letter_spans))

abbrev generate : Text → Option Text
generate prompt = some (codes "[...]")

abbrev prompt : Text → Text
prompt raw_text = codes "Document: " ++ raw_text

letter_spans-IsProper : All (IsProper letter) letter_spans
letter_spans-IsProper = ((omega arith, omega arith), ((omega arith, omega arith), tt))

letter_answered : propose_by_inference loads generate prompt letter ≡ ok letter_spans
letter_answered =
    propose_by_inference-answers_of loads generate prompt letter (codes "[...]") letter_spans refl
      refl letter_spans-IsProper

propose_by_inference-IsProper_example : All (IsProper letter) letter_spans
propose_by_inference-IsProper_example =
    propose_by_inference-IsProper loads generate prompt letter letter_spans letter_answered

abbrev inferred_run : Result PipelineError ArtifactHandle × Disk
inferred_run =
    process_document hexdigest codec (codes "memo.1") letter [] vault
      (some (by_inference loads generate prompt)) empty_disk

inferred_ok :
    inferred_run.0
    ≡ ok (record { doc_id = codes "memo.1"; vault_path = private_path vault (codes "memo.1") })
unfolding process_document prepare validate_doc_id is_name is_name_char is_traversal stem_of upper
    eq_text choose_spans redact validate commit write_text make_key propose_by_inference
    parse_payload parse_elements parse_element field_of find_kind check_ends
inferred_ok = refl

process_document-by_inference_example :
    (r : Redaction) × (inferred_run.1.files (manifest_path vault (codes "memo.1"))
      ≡ some (codec.dump_manifest (manifest_for (codes "memo.1") r)))
    × (restore codec same_path
          (record { doc_id = codes "memo.1"; vault_path = private_path vault (codes "memo.1") })
          vault
          inferred_run.1
        ≡ ok r.private_dict)
    × IsClean (manifest_for (codes "memo.1") r) r.private_dict
    × (reveal r ≡ letter)
process_document-by_inference_example =
    process_document-by_inference loads generate prompt hexdigest codec (codes "memo.1") letter
      vault empty_disk same_path codec-IsLawful refl refl inferred_ok
