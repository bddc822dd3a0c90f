-- ===== src/QueryResolver.antt =====
-- `QueryResolver` of the search gateway (src/yomotsusaka/search_gateway.py): the map from raw values
-- to redacted keys, and the translation of a query. The map is a list in the order of insertion, as
-- a Python `dict` is. The loop of `translate` runs on fuel; a step takes at least one character, so
-- the length of the query is enough.
pub mod Registry
pub mod Matching
pub mod Terms
pub mod Translation
use yomotsusaka.Prelude.{
  ℕ, zero, suc, Text, eq_text, starts_with, is_member, Bool, true, false, not, Option, none, some,
  List, [], ◌∷◌, ◌++◌, length, drop, leb, Result, ok, err, if◌then◌else◌,
}
use yomotsusaka.Schemas.{PrivateDictEntry}

-- `_map`
abbrev pub Registry : Type 0
Registry = List (Text × Text)

-- The messages of the `ValueError`s.
pub data RegisterError : Type 0 where
  empty_value empty_key different_key : RegisterError

-- `self._map.get(raw_value)`
unfoldable pub find_key : Text → Registry → Option Text
find_key raw_value [] = none
find_key raw_value ((raw, key) ∷ entries) =
    let later = find_key raw_value entries in if eq_text raw raw_value then some key else later

-- `self._map[raw_value] = key`
unfoldable pub put_key : Text → Text → Registry → Registry
put_key raw_value key [] = (raw_value, key) ∷ []
put_key raw_value key ((raw, k) ∷ entries) =
    let later = put_key raw_value key entries in
    if eq_text raw raw_value then (raw, key) ∷ entries else (raw, k) ∷ later

-- `existing is not None and existing != key`
abbrev pub conflicts : Option Text → Text → Bool
conflicts none key = false
conflicts (some existing) key = not (eq_text existing key)

abbrev pub put_unless : Bool → Text → Text → Registry → Result RegisterError (Unit {0}) × Registry
put_unless true raw_value key entries = (err different_key, entries)
put_unless false raw_value key entries = (ok tt, put_key raw_value key entries)

-- `register`
unfoldable pub register : Text → Text → Registry → Result RegisterError (Unit {0}) × Registry
unfolding find_key put_key eq_text
register [] key entries = (err empty_value, entries)
register (c ∷ raw) [] entries = (err empty_key, entries)
register (c ∷ raw) (k ∷ key) entries =
    put_unless (conflicts (find_key (c ∷ raw) entries) (k ∷ key)) (c ∷ raw) (k ∷ key) entries

-- A call that changes the map, and what runs on the changed map when the call does not raise.
abbrev pub and_then :
    Result RegisterError (Unit {0}) × Registry
    → (Registry → Result RegisterError (Unit {0}) × Registry)
    → Result RegisterError (Unit {0}) × Registry
and_then (err cause, entries) next = (err cause, entries)
and_then (ok done, entries) next = next entries

-- `register_entries`: what an entry adds stays when a later one is refused.
unfoldable pub register_entries :
    List PrivateDictEntry → Registry → Result RegisterError (Unit {0}) × Registry
unfolding register
register_entries [] entries = (ok tt, entries)
register_entries (e ∷ es) entries =
    and_then (register e.original_value e.key entries) (register_entries es)

-- `sorted(self._map.keys(), key=len, reverse=True)`, which is stable.
insert_value : Text → List Text → List Text
insert_value raw [] = raw ∷ []
insert_value raw (other ∷ raws) =
    let later = insert_value raw raws in
    if leb (length other) (length raw) then raw ∷ other ∷ raws else other ∷ later

unfoldable pub sort_values : Registry → List Text
unfolding insert_value
sort_values [] = []
sort_values ((raw, key) ∷ entries) = insert_value raw (sort_values entries)

-- The loop over the raw values at one position of the query; `rest` is `query[i:]`.
unfoldable pub find_match : List Text → Text → Option Text
unfolding starts_with
find_match [] rest = none
find_match ([] ∷ raws) rest = find_match raws rest
find_match ((c ∷ raw) ∷ raws) rest =
    let later = find_match raws rest in if starts_with (c ∷ raw) rest then some (c ∷ raw) else later

pub record ResolvedQuery : Type 0 where
  pub translated_terms : List Text
  pub residual : Text

-- `seen_keys` holds the keys of `translated`, so that the one list stands for both.
abbrev pub add_term : Text → List Text → List Text
add_term key translated = if is_member key translated then translated else translated ++ key ∷ []

-- The loop of `translate`: `none` if the fuel is used up or a raw value has no key.
unfoldable pub walk : Registry → ℕ → Text → ResolvedQuery → Option ResolvedQuery
unfolding find_match sort_values find_key eq_text
walk entries fuel [] found = some found
walk entries zero (c ∷ rest) found = none
walk entries (suc fuel) (c ∷ rest) found = elim (find_match (sort_values entries) (c ∷ rest)) [
  | none ↦ walk entries fuel rest (record found { residual = found.residual ++ c ∷ [] })
  | some raw ↦ elim (find_key raw entries) [
    | none ↦ none
    | some key ↦
        walk entries fuel (drop (length raw) (c ∷ rest))
          (record found { translated_terms = add_term key found.translated_terms })
  ]
]

abbrev pub untranslated : Text → ResolvedQuery
untranslated residual = record { translated_terms = []; residual = residual }

-- `translate`
unfoldable pub translate : Registry → Text → Option ResolvedQuery
unfolding walk
translate entries [] = some (untranslated [])
translate [] (c ∷ query) = some (untranslated (c ∷ query))
translate (entry ∷ entries) (c ∷ query) =
    walk (entry ∷ entries) (length (c ∷ query)) (c ∷ query) (untranslated [])
