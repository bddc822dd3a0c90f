-- ===== src/Examples/Batches.antt =====
-- An inbox with two files, of which a proposer finds something in one, and the theorems on the runner.
use yomotsusaka.Prelude.{
  ℕ, all, take, ◌≤◌, Text, codes, true, Option, none, some, List, [], ◌∷◌, ◌++◌, length, ◌≡◌, refl,
}
use yomotsusaka.Validator.{is_hex}
use yomotsusaka.Schemas.{person, DocumentManifest}
use yomotsusaka.Pipeline.{Proposer}
use yomotsusaka.Boundary.Locator.{is_opaque_id}
use yomotsusaka.Snapshot.{IndexFiles, Attempt, succeeds}
use yomotsusaka.BatchQueue.{Batches}
use yomotsusaka.BatchRunner.{
  InboxFile, stem_part, derive_doc_id, RunState, not_committed, process_one,
}
use yomotsusaka.BatchRunner.Ids.{derive_doc_id-is_opaque_id}
use yomotsusaka.BatchRunner.Runs.{process_one_nothing}
use yomotsusaka.Examples.Wire.{codec}
use yomotsusaka.Examples.Documents.{hexdigest, hexdigest-IsHexDigest, vault, empty_disk}

abbrev letter_file : InboxFile
letter_file = record {
  ref = codes "in/a letter.txt";
  stem = codes "a letter";
  relative = codes "a letter.txt";
  content = some (codes "Ann");
}

abbrev empty_file : InboxFile
empty_file = record {
  ref = codes "in/nothing.txt";
  stem = codes "nothing";
  relative = codes "nothing.txt";
  content = some [];
}

-- The whole text is a name, if there is any.
abbrev propose : Proposer
propose [] = some []
propose (c ∷ t) = some (record { start = 0; end = length (c ∷ t); kind = person } ∷ [])

abbrev fresh : RunState
fresh = record { disk = empty_disk; gateway = record { manifests = []; resolver = none } }

abbrev no_batches : Batches
no_batches id = none

derive_doc_id-is_opaque_id_example :
    let id = derive_doc_id hexdigest letter_file in
    (is_opaque_id id ≡ true)
    × (length id ≤ 128)
    × (id ≡ stem_part letter_file.stem ++ b'-' ∷ take 10 (hexdigest letter_file.relative))
    × ((length (take 10 (hexdigest letter_file.relative)) ≡ 10)
        × (all is_hex (take 10 (hexdigest letter_file.relative)) ≡ true))
derive_doc_id-is_opaque_id_example =
    derive_doc_id-is_opaque_id hexdigest letter_file hexdigest-IsHexDigest

process_one_nothing_example :
    process_one hexdigest hexdigest codec propose vault empty_file fresh ≡ (not_committed, fresh)
process_one_nothing_example =
    process_one_nothing hexdigest hexdigest codec propose vault empty_file [] fresh refl refl

abbrev error_of : ℕ → Text
error_of n = codes "all document(s) failed"

abbrev dump : DocumentManifest → Text
dump m = codes "{}"

abbrev validate_json : Text → Option DocumentManifest
validate_json t = none

abbrev system : ℕ → Attempt
system attempt = succeeds

abbrev no_index : IndexFiles
no_index = record { tmp = none; final = none }

abbrev inbox : List InboxFile
inbox = letter_file ∷ empty_file ∷ []
