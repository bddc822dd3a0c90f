-- ===== src/Examples/Searches.antt =====
-- A small index on which the theorems on the query resolver, the search and the snapshot are applied.
use yomotsusaka.Prelude.{
  ℕ, suc, zero, ◌+◌, ◌≤◌, ◌<◌, Text, codes, eq_text, starts_with, true, Option, none, some, List,
  [], ◌∷◌, ◌++◌, map, length, leb, ◌&&◌, if◌then◌else◌, All, ◌≡◌, ◌↔◌, refl, ok, arith,
}
use yomotsusaka.Schemas.{person, PrivateDictEntry, DocumentManifest}
use yomotsusaka.Charset.{is_name, is_name_char, is_traversal}
use yomotsusaka.Validator.Spec.{Has}
use yomotsusaka.Boundary.Locator.{is_opaque_id}
use yomotsusaka.QueryResolver.{
  Registry, ResolvedQuery, register, register_entries, find_key, put_key, translate, walk,
  find_match, sort_values,
}
use yomotsusaka.QueryResolver.Terms.{IsUnique}
use yomotsusaka.QueryResolver.Translation.{Walk, translate-Walk}
use yomotsusaka.SearchGateway.{SearchGateway, SearchHit, needles_of, ids, search, search_request}
use yomotsusaka.SearchGateway.Results.{IsHit, search_resolved}
use yomotsusaka.SearchGateway.Responses.{AllShow, search_request-AllShow}
use yomotsusaka.Snapshot.{
  IndexFiles, Attempt, succeeds, write_fails, strip, jsonl, snapshot, load, write_with_retry,
}
use yomotsusaka.Snapshot.Latest.{keep_last}
use yomotsusaka.Snapshot.Retry.{Outcome, snapshot-Outcome}
use yomotsusaka.Snapshot.Reload.{IsWritten, load-snapshot}

abbrev ann : PrivateDictEntry
ann = record { key = codes "<PERSON_11111111>"; original_value = codes "Ann"; kind = person }

abbrev ann_lee : PrivateDictEntry
ann_lee = record {
  key = codes "<PERSON_22222222>";
  original_value = codes "Ann Lee";
  kind = person;
}

abbrev people : Registry
people = (codes "Ann", ann.key) ∷ (codes "Ann Lee", ann_lee.key) ∷ []

registered_people : register_entries (ann ∷ ann_lee ∷ []) [] ≡ (ok tt, people)
unfolding register_entries register find_key put_key eq_text
registered_people = refl

-- The longer value is translated where both stand.
longest_first :
    translate people (codes "from Ann Lee")
    ≡ some (record { translated_terms = ann_lee.key ∷ []; residual = codes "from " })
unfolding translate walk find_match sort_values find_key starts_with eq_text
longest_first = refl

-- What is left over can be a raw value again: its two parts stood on both sides of another one.
left_over :
    translate ((codes "Ann", codes "<PERSON_11111111>") ∷ []) (codes "AnAnnn")
    ≡ some (record { translated_terms = codes "<PERSON_11111111>" ∷ []; residual = codes "Ann" })
unfolding translate walk find_match sort_values find_key starts_with eq_text
left_over = refl

translate-Walk_example :
    (keys : List Text) × (terms : List Text) × (residual : Text) × (translate people
        (codes "from Ann Lee")
      ≡ some (record { translated_terms = terms; residual = residual }))
    × Walk people (codes "from Ann Lee") keys residual
    × IsUnique terms
    × ((t : Text) → Has t terms ↔ Has t keys)
translate-Walk_example = translate-Walk people (codes "from Ann Lee")

abbrev lower : Text → Text
lower t = map (λ c. if leb b'A' c && leb c b'Z' then c + 32 else c) t

abbrev memo : DocumentManifest
memo = record {
  doc_id = codes "memo.1";
  source_ref = codes "memo.1";
  redacted_text = codes "Dear <PERSON_22222222>, call.";
  entities = [];
  labels = codes "letter" ∷ [];
  summary = [];
}

abbrev note : DocumentManifest
note = record {
  doc_id = codes "note.1";
  source_ref = codes "note.1";
  redacted_text = codes "Nothing from her.";
  entities = [];
  labels = [];
  summary = [];
}

abbrev gateway : SearchGateway
gateway = record { manifests = memo ∷ note ∷ []; resolver = some people }

abbrev query : Text
query = codes "from Ann Lee"

search_resolved_example :
    (resolved : ResolvedQuery) × (found : List DocumentManifest) × (translate people query
      ≡ some resolved)
    × (search lower gateway query 1 ≡ some found)
    × All (IsHit lower gateway query 1 (needles_of resolved)) found
    × IsUnique (ids found)
    × (length found ≤ 1)
    × (length found < 1
        → (m : DocumentManifest) → IsHit lower gateway query 1 (needles_of resolved) m
        → Has m.doc_id (ids found))
search_resolved_example = search_resolved lower gateway query 1 refl (omega arith)

gateway_ids : All (λ m. is_opaque_id m.doc_id ≡ true) gateway.manifests
unfolding is_name is_name_char is_traversal eq_text
gateway_ids = (refl, (refl, tt))

search_request-AllShow_example :
    (hits : List SearchHit) × (search_request lower gateway query 2 ≡ ok hits)
    × (length hits ≤ 2)
    × AllShow lower gateway.manifests hits
search_request-AllShow_example =
    search_request-AllShow lower gateway query 2 (omega arith) gateway_ids

-- The first attempt stops in the middle of a line, the second succeeds.
abbrev system : ℕ → Attempt
system zero = write_fails (codes "{") true
system (suc attempt) = succeeds

abbrev no_files : IndexFiles
no_files = record { tmp = none; final = none }

-- An index whose only manifest is written on one line.
abbrev one : SearchGateway
one = record { manifests = memo ∷ memo ∷ []; resolver = none }

abbrev dump : DocumentManifest → Text
dump m = codes "{memo}"

abbrev validate_json : Text → Option DocumentManifest
validate_json t = some memo

snapshot-Outcome_example :
    let w = snapshot dump validate_json one true system no_files in
    Outcome (jsonl dump validate_json (keep_last one.manifests)) system no_files w
    × (w.announced ≤ 1)
snapshot-Outcome_example = snapshot-Outcome dump validate_json one system no_files

memo-IsWritten : IsWritten dump validate_json memo
unfolding strip
memo-IsWritten =
    (refl, record { not_empty = λ e. cc; stripped = refl; no_feed = refl; no_return = refl })

one_returns : (snapshot dump validate_json one true system no_files).returns ≡ true
unfolding snapshot write_with_retry
one_returns = refl

load-snapshot_example :
    let w = snapshot dump validate_json one true system no_files in
    load dump validate_json w.files.final gateway ≡ (
      record gateway { manifests = gateway.manifests ++ keep_last one.manifests },
      length (keep_last one.manifests),
    )
load-snapshot_example =
    load-snapshot dump validate_json one gateway system no_files
      (memo-IsWritten, (memo-IsWritten, tt)) one_returns
