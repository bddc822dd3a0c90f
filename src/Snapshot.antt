-- ===== src/Snapshot.antt =====
-- `SearchGateway.snapshot`, `_snapshot_write_with_retry` and `SearchGateway.load`
-- (src/yomotsusaka/search_gateway.py). The files are the temporary and the final one; what the
-- operating system does in each attempt is a parameter. `dump` stands for
-- `DocumentManifest.model_dump_json`, `validate_json` for `model_validate_json`. The lines are those
-- of the text mode of `open`, except that the two characters of a `\r\n` end a line each, which adds
-- a blank line: `load` skips it.
pub mod Latest
pub mod Retry
pub mod Reload
use yomotsusaka.Prelude.{
  ℕ, zero, suc, Text, is_member, Bool, true, false, Option, none, some, List, [], ◌∷◌, ◌++◌, map,
  concat, reverse, length, ◌==◌, ◌||◌,
}
use yomotsusaka.Schemas.{DocumentManifest}
use yomotsusaka.SearchGateway.{SearchGateway, ids}
use yomotsusaka.Boundary.Resolver.{is_space}

-- The walk over the reversed index; `seen` holds the ids of `latest`.
unfoldable pub latest_from : List DocumentManifest → List DocumentManifest → List DocumentManifest
latest_from [] latest = latest
latest_from (m ∷ ms) latest = elim (is_member m.doc_id (ids latest)) [
  | true ↦ latest_from ms latest
  | false ↦ latest_from ms (latest ++ m ∷ [])
]

-- What `snapshot` writes: the manifests without those that a later one of the same id replaces.
unfoldable pub latest_of : List DocumentManifest → List DocumentManifest
unfolding latest_from
latest_of manifests = reverse (latest_from (reverse manifests) [])

pub record IndexFiles : Type 0 where
  pub tmp : Option Text
  pub final : Option Text

-- What the operating system does in one attempt. On an `OSError` the last field tells whether the
-- temporary file can be removed.
pub data Attempt : Type 0 where
  succeeds : Attempt
  -- `open` raises
  open_fails : Bool → Attempt
  -- a write, the flush or the `fsync` raises when this much is in the file
  write_fails : Text → Bool → Attempt
  -- `os.replace` raises
  replace_fails : Bool → Attempt

-- `if tmp_path.exists(): tmp_path.unlink()`
abbrev pub remove_tmp : Bool → IndexFiles → IndexFiles
remove_tmp true files = record files { tmp = none }
remove_tmp false files = files

-- One attempt: the files after it, and whether it returns.
abbrev pub attempt_write : Text → Attempt → IndexFiles → IndexFiles × Bool
attempt_write content succeeds files = (record { tmp = none; final = some content }, true)
attempt_write content (open_fails removed) files = (remove_tmp removed files, false)
attempt_write content (write_fails left removed) files =
    (remove_tmp removed (record files { tmp = some left }), false)
attempt_write content (replace_fails removed) files =
    (remove_tmp removed (record files { tmp = some content }), false)

-- What the call comes to: the files, whether it returns (or raises the last `OSError`), and how
-- often `snapshot_retry` is logged.
pub record Written : Type 0 where
  pub files : IndexFiles
  pub returns : Bool
  pub announced : ℕ

-- `if attempt < _SNAPSHOT_MAX_ATTEMPTS - 1`, by the number of attempts that are left.
abbrev pub announce : ℕ → ℕ → ℕ
announce zero announced = announced
announce (suc left) announced = suc announced

-- What comes after an attempt: the call returns, or goes on with the files as they are.
abbrev pub or_again : (IndexFiles → Written) → ℕ → IndexFiles × Bool → Written
or_again again announced (after, true) = record {
  files = after;
  returns = true;
  announced = announced;
}
or_again again announced (after, false) = again after

-- The loop over the attempts that are left; `system` tells what happens in each attempt.
unfoldable pub write_with_retry : Text → (ℕ → Attempt) → ℕ → ℕ → ℕ → IndexFiles → Written
write_with_retry content system zero attempt announced files = record {
  files = files;
  returns = false;
  announced = announced;
}
write_with_retry content system (suc left) attempt announced files =
    or_again (write_with_retry content system left (suc attempt) (announce left announced))
      announced (attempt_write content (system attempt) files)

abbrev pub snapshot_max_attempts : ℕ
snapshot_max_attempts = 2

-- `str.strip`
abbrev pub strip_left : Text → Text
strip_left [] = []
strip_left (c ∷ t) = let rest = strip_left t in elim (is_space c) [ true ↦ rest | false ↦ c ∷ t ]

unfoldable pub strip : Text → Text
strip t = reverse (strip_left (reverse (strip_left t)))

abbrev pub is_line_end : ℕ → Bool
is_line_end c = c == b'\n' || c == b'\r'

abbrev pub add_to_line : ℕ → List Text → List Text
add_to_line c [] = (c ∷ []) ∷ []
add_to_line c (line ∷ lines) = (c ∷ line) ∷ lines

unfoldable pub file_lines : Text → List Text
file_lines [] = []
file_lines (c ∷ t) = elim (is_line_end c) [
  | true ↦ [] ∷ file_lines t
  | false ↦ add_to_line c (file_lines t)
]

module _ (dump : DocumentManifest → Text) (validate_json : Text → Option DocumentManifest) where
  -- What is written: a line for each manifest.
  unfoldable pub jsonl : List DocumentManifest → Text
  jsonl [] = []
  jsonl (m ∷ ms) = dump m ++ b'\n' ∷ jsonl ms

  -- `snapshot`, behind the `mkdir` that may raise too.
  unfoldable pub snapshot : SearchGateway → Bool → (ℕ → Attempt) → IndexFiles → Written
  unfolding latest_of write_with_retry
  snapshot gateway false system files = record { files = files; returns = false; announced = 0 }
  snapshot gateway true system files =
      write_with_retry (jsonl (latest_of gateway.manifests)) system snapshot_max_attempts 0 0 files

  abbrev pub add_loaded : Option DocumentManifest → List DocumentManifest → List DocumentManifest
  add_loaded none ms = ms
  add_loaded (some m) ms = m ∷ ms

  -- A line without its surrounding space: blank, malformed, or a manifest.
  abbrev pub load_line : Text → Option DocumentManifest
  load_line [] = none
  load_line (c ∷ line) = validate_json (c ∷ line)

  unfoldable pub load_lines : List Text → List DocumentManifest
  unfolding strip
  load_lines [] = []
  load_lines (line ∷ lines) = add_loaded (load_line (strip line)) (load_lines lines)

  -- `load`: the gateway after it, and the number of manifests loaded.
  unfoldable pub load : Option Text → SearchGateway → SearchGateway × ℕ
  unfolding load_lines file_lines
  load none gateway = (gateway, 0)
  load (some content) gateway =
      let loaded = load_lines (file_lines content) in
      (record gateway { manifests = gateway.manifests ++ loaded }, length loaded)
