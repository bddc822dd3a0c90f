-- ===== src/SearchGateway.antt =====
-- `SearchGateway` (src/yomotsusaka/search_gateway.py): the index of manifests, the search, and the
-- search requests of the boundary (src/yomotsusaka/boundary.py). `lower` stands for `str.lower`,
-- and the length of a text need not survive it. `top_k` is a number that is not negative.
pub mod Results
pub mod Snippets
pub mod Responses
use yomotsusaka.Prelude.{
  ℕ, ◌+◌, ◌-◌, ◌<◌, min, zero, suc, Text, codes, eq_text, contains, starts_with, is_member, Bool,
  true, false, not, Option, none, some, List, [], ◌∷◌, ◌++◌, map, keep, length, take, slice, leb,
  ltb, ◌&&◌, Result, ok, err, if◌then◌else◌,
}
use yomotsusaka.Schemas.{PrivateDictEntry, DocumentManifest}
use yomotsusaka.QueryResolver.{Registry, RegisterError, ResolvedQuery, register_entries, translate}
use yomotsusaka.Boundary.Resolver.{is_blank, public_handle_for}
use yomotsusaka.Boundary.Locator.{LocatorError}

pub record SearchGateway : Type 0 where
  pub manifests : List DocumentManifest
  pub resolver : Option Registry

abbrev pub indexed :
    List DocumentManifest
    → Result RegisterError (Unit {0}) × Registry
    → Result RegisterError (Unit {0}) × SearchGateway
indexed manifests (outcome, entries) =
    (outcome, record { manifests = manifests; resolver = some entries })

-- `index`; `None` and the empty list of entries are the same to it.
unfoldable pub index :
    DocumentManifest
    → List PrivateDictEntry
    → SearchGateway
    → Result RegisterError (Unit {0}) × SearchGateway
unfolding register_entries
index m private_entries gateway = elim gateway.resolver [
  | none ↦ (ok tt, record gateway { manifests = gateway.manifests ++ m ∷ [] })
  | some entries ↦ indexed (gateway.manifests ++ m ∷ []) (register_entries private_entries entries)
]

-- The translated terms, then the residual if it is not blank.
unfoldable pub needles_of : ResolvedQuery → List Text
unfolding is_blank
needles_of resolved =
    resolved.translated_terms ++ (if is_blank resolved.residual then [] else resolved.residual ∷ [])

abbrev pub ids : List DocumentManifest → List Text
ids ms = map (λ m. m.doc_id) ms

pub record SearchHit : Type 0 where
  pub handle : Text
  pub redacted_snippet : Text
  pub labels : List Text

pub data SearchError : Type 0 where
  untranslatable : SearchError
  bad_locator : LocatorError → SearchError

-- The bounds of `SearchRequest.top_k`
abbrev pub is_top_k : ℕ → Bool
is_top_k top_k = leb 1 top_k && leb top_k 1000

abbrev pub unless_returned :
    (List DocumentManifest → List DocumentManifest)
    → List DocumentManifest × Bool
    → List DocumentManifest
unless_returned next (ordered, true) = ordered
unless_returned next (ordered, false) = next ordered

abbrev pub add_hit :
    Result SearchError SearchHit
    → Result SearchError (List SearchHit)
    → Result SearchError (List SearchHit)
add_hit (err cause) hits = err cause
add_hit (ok hit) (err cause) = err cause
add_hit (ok hit) (ok hits) = ok (hit ∷ hits)

-- `tuple(needle_list) if needle_list else (request.query,)`
abbrev pub or_query : List Text → Text → List Text
or_query [] query = query ∷ []
or_query (needle ∷ needles) query = needle ∷ needles

abbrev pub translated_needles : Text → Option ResolvedQuery → Option (List Text)
translated_needles query none = none
translated_needles query (some resolved) = some (or_query (needles_of resolved) query)

-- The needles of the snippets
abbrev pub snippet_needles : Option Registry → Text → Option (List Text)
snippet_needles none query = some (query ∷ [])
snippet_needles (some entries) query = translated_needles query (translate entries query)

-- `haystack.find(needle)`
unfoldable pub find_in : Text → Text → Option ℕ
unfolding starts_with
find_in needle [] = if starts_with needle [] then some 0 else none
find_in needle (c ∷ haystack) =
    let later = find_in needle haystack in
    if starts_with needle (c ∷ haystack)
    then some 0
    else elim later [ none ↦ none | some i ↦ some (suc i) ]

module _ (lower : Text → Text) where
  -- `needle.lower() in m.redacted_text.lower()`
  unfoldable pub is_hit : Text → DocumentManifest → Bool
  unfolding contains
  is_hit needle m = contains (lower needle) (lower m.redacted_text)

  -- The loop over the manifests for one needle: what was found, and whether `search` has returned.
  -- `seen_ids` holds the ids of what was found.
  unfoldable pub scan :
      ℕ → Text → List DocumentManifest → List DocumentManifest → List DocumentManifest × Bool
  unfolding is_hit
  scan top_k needle [] ordered = (ordered, false)
  scan top_k needle (m ∷ ms) ordered = elim (is_member m.doc_id (ids ordered)) [
    | true ↦ scan top_k needle ms ordered
    | false ↦ elim (is_hit needle m) [
      | false ↦ scan top_k needle ms ordered
      | true ↦ elim (leb top_k (length (ordered ++ m ∷ []))) [
        | true ↦ (ordered ++ m ∷ [], true)
        | false ↦ scan top_k needle ms (ordered ++ m ∷ [])
      ]
    ]
  ]

  -- The loop over the needles.
  unfoldable pub scan_all :
      ℕ → List DocumentManifest → List Text → List DocumentManifest → List DocumentManifest
  unfolding scan
  scan_all top_k manifests [] ordered = take top_k ordered
  scan_all top_k manifests (needle ∷ needles) ordered =
      unless_returned (scan_all top_k manifests needles) (scan top_k needle manifests ordered)

  -- `search`; `none` only if `translate` came to nothing
  unfoldable pub search : SearchGateway → Text → ℕ → Option (List DocumentManifest)
  unfolding translate needles_of scan_all
  search gateway query top_k = elim gateway.resolver [
    | none ↦ some (take top_k (keep (is_hit query) gateway.manifests))
    | some entries ↦ elim (translate entries query) [
      | none ↦ none
      | some resolved ↦ some (scan_all top_k gateway.manifests (needles_of resolved) [])
    ]
  ]

  -- `_redacted_snippet` from one needle on, with half the window.
  unfoldable pub snippet_from : Text → ℕ → ℕ → List Text → Text
  unfolding find_in
  snippet_from text window half [] = take window text
  snippet_from text window half ([] ∷ needles) = snippet_from text window half needles
  snippet_from text window half ((c ∷ needle) ∷ needles) =
      elim (find_in (lower (c ∷ needle)) (lower text)) [
        | none ↦ snippet_from text window half needles
        | some idx ↦ slice (idx - half) (min (length text) (idx + length (c ∷ needle) + half)) text
      ]

  -- `_redacted_snippet` with its window of 60 characters
  unfoldable pub redacted_snippet : Text → List Text → Text
  unfolding snippet_from
  redacted_snippet text needles = snippet_from text 60 30 needles

  abbrev pub with_handle :
      DocumentManifest → List Text → Result LocatorError Text → Result SearchError SearchHit
  with_handle m needles (err cause) = err (bad_locator cause)
  with_handle m needles (ok handle) = ok (record {
    handle = handle;
    redacted_snippet = redacted_snippet m.redacted_text needles;
    labels = m.labels;
  })

  -- The list of hits, whose first failure is raised.
  unfoldable pub hits_of : List Text → List DocumentManifest → Result SearchError (List SearchHit)
  unfolding redacted_snippet
  hits_of needles [] = ok []
  hits_of needles (m ∷ ms) =
      add_hit (with_handle m needles (public_handle_for m.doc_id)) (hits_of needles ms)

  abbrev pub with_results :
      Option (List DocumentManifest) → Option (List Text) → Result SearchError (List SearchHit)
  with_results (some ms) (some needles) = hits_of needles ms
  with_results _ _ = err untranslatable

  -- `search_request`
  unfoldable pub search_request : SearchGateway → Text → ℕ → Result SearchError (List SearchHit)
  unfolding search hits_of needles_of translate
  search_request gateway query top_k =
      with_results (search gateway query top_k) (snippet_needles gateway.resolver query)
