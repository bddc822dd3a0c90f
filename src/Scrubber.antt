-- ===== src/Scrubber.antt =====
-- The fail-closed scrubber of free text (src/yomotsusaka/scrubber.py).
pub mod Paths
pub mod Laws
use yomotsusaka.Prelude.{
  ℕ, zero, suc, ◌+◌, ◌-◌, Text, codes, starts_with, contains, strip_prefix?, Bool, true, false, not,
  Option, none, some, List, [], ◌∷◌, ◌++◌, length, drop, leb, ◌&&◌, Result, ok, err, if◌then◌else◌,
}
use yomotsusaka.Schemas.{PrivateDictEntry}
use yomotsusaka.Charset.{is_name_char}
use yomotsusaka.Validator.{is_empty}

-- `text.replace(old, new)` for an `old` that is not empty. The first argument counts the
-- characters that are left of the occurrence just replaced.
unfoldable pub replace_from : ℕ → Text → Text → Text → Text
unfolding starts_with
replace_from n old new [] = []
replace_from (suc n) old new (c ∷ t) = replace_from n old new t
replace_from zero old new (c ∷ t) =
    let replaced = new ++ replace_from (length old - 1) old new t in
    let kept = c ∷ replace_from zero old new t in if starts_with old (c ∷ t) then replaced else kept

-- How many of the first characters, at most the given number, are `[A-Za-z0-9._-]`.
unfoldable pub run_length : ℕ → Text → ℕ
unfolding is_name_char
run_length zero t = 0
run_length (suc n) [] = 0
run_length (suc n) (c ∷ t) = let rest = run_length n t in if is_name_char c then suc rest else 0

-- `[A-Za-z0-9._-]{1,k}\.(?:json|jsonl)`, the longest run first. The alternative `json` always
-- succeeds where `jsonl` would. The result is the length of the run.
unfoldable pub find_end : ℕ → Text → Option ℕ
unfolding starts_with
find_end zero t = none
find_end (suc k) t =
    let shorter = find_end k t in
    if starts_with (codes ".json") (drop (suc k) t) then some (suc k) else shorter

unfoldable pub match_name : ℕ → Option Text → Option ℕ
unfolding find_end run_length
match_name n none = none
match_name n (some rest) = elim (find_end (run_length 128 rest) rest) [
  | none ↦ none
  | some k ↦ some (n + k + 5)
]

abbrev pub vault_dirs : List Text
vault_dirs = codes "manifests" ∷ codes "private" ∷ codes "audit" ∷ []

-- The alternation of the directories.
unfoldable pub match_dirs : List Text → Text → Option ℕ
unfolding match_name strip_prefix?
match_dirs [] t = none
match_dirs (dir ∷ dirs) t =
    let others = match_dirs dirs t in
    elim (match_name (length dir + 2) (strip_prefix? (b'/' ∷ (dir ++ b'/' ∷ [])) t)) [
      | none ↦ others
      | some n ↦ some n
    ]

-- `_VAULT_PATH_PATTERN.match`: the length of a match at the start of the text.
unfoldable pub match_vault_path : Text → Option ℕ
unfolding match_dirs
match_vault_path t = match_dirs vault_dirs t

abbrev pub vault_path_mask : Text
vault_path_mask = codes "<vault_path>"

-- `_VAULT_PATH_PATTERN.sub("<vault_path>", text)`
unfoldable pub mask_from : ℕ → Text → Text
mask_from n [] = []
mask_from (suc n) (c ∷ t) = mask_from n t
mask_from zero (c ∷ t) = elim (match_vault_path (c ∷ t)) [
  | none ↦ c ∷ mask_from zero t
  | some n ↦ vault_path_mask ++ mask_from (n - 1) t
]

-- `entries.sort(key=lambda e: len(e.original_value), reverse=True)`, which is stable.
unfoldable pub insert_entry : PrivateDictEntry → List PrivateDictEntry → List PrivateDictEntry
insert_entry e [] = e ∷ []
insert_entry e (x ∷ xs) =
    if leb (length x.original_value) (length e.original_value)
    then e ∷ x ∷ xs
    else x ∷ insert_entry e xs

unfoldable pub sort_entries : List PrivateDictEntry → List PrivateDictEntry
unfolding insert_entry
sort_entries [] = []
sort_entries (e ∷ es) = insert_entry e (sort_entries es)

-- Pass 1.
unfoldable pub mask_values : List PrivateDictEntry → Text → Text
unfolding replace_from
mask_values [] text = text
mask_values (e ∷ es) text =
    mask_values es
      (if is_empty e.original_value then text else replace_from 0 e.original_value e.key text)

-- `ScrubError` carries the key of the residual value, never the value.
pub data ScrubError : Type 0 where
  residual_value : Text → ScrubError

-- The fail-closed re-check.
unfoldable pub recheck : List PrivateDictEntry → Text → Result ScrubError Text
unfolding contains
recheck [] scrubbed = ok scrubbed
recheck (e ∷ es) scrubbed =
    let rest = recheck es scrubbed in
    if not (is_empty e.original_value) && contains e.original_value scrubbed
    then err (residual_value e.key)
    else rest

-- `scrub_stream`
unfoldable pub scrub_stream : Text → List PrivateDictEntry → Result ScrubError Text
unfolding mask_values mask_from recheck sort_entries
scrub_stream [] private_dict = ok []
scrub_stream (c ∷ t) private_dict =
    let entries = sort_entries private_dict in
    recheck entries (mask_from 0 (mask_values entries (c ∷ t)))
