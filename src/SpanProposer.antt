-- ===== src/SpanProposer.antt =====
-- The proposers of spans (src/yomotsusaka/span_proposer.py). A rule's pattern is a parameter: the
-- list of start and end that `finditer` yields on the text. `json.loads` and the backend's
-- `generate` are parameters too; a call that raises gives `none`. The prompt's template and the
-- logging of counts are left out.
pub mod Claims
pub mod Responses
pub mod Runs
use yomotsusaka.Prelude.{
  ℕ, ◌+◌, Text, codes, eq_text, ℤ, pos, negsuc, Bool, true, false, Option, none, some, List, [],
  ◌∷◌, ◌++◌, any, length, ltb, leb, ◌&&◌, Result, ok, err, ◌>>=◌, ◌>>◌, require, if◌then◌else◌,
}
use yomotsusaka.Schemas.{EntityKind, kind_value}
use yomotsusaka.Validator.{entity_kinds}
use yomotsusaka.Redactor.{Span, sort_spans}

-- `NoOpSpanProposer.propose`
abbrev pub propose_nothing : Text → List Span
propose_nothing raw_text = []

pub record Rule : Type 0 where
  pub finditer : Text → List (ℕ × ℕ)
  pub kind : EntityKind

-- The test of a match against one claimed range.
abbrev pub overlaps : ℕ → ℕ → Span → Bool
overlaps start end claimed = ltb start claimed.end && ltb claimed.start end

-- The loop over the matches of a rule. `claimed` holds the range of each span, in the order of
-- `spans`, so that one list stands for both.
unfoldable pub claim_matches : EntityKind → List (ℕ × ℕ) → List Span → List Span
claim_matches kind [] spans = spans
claim_matches kind ((start, end) ∷ matches) spans = claim_matches kind matches (
    if any (overlaps start end) spans
    then spans
    else spans ++ record { start = start; end = end; kind = kind } ∷ [])

unfoldable pub claim_rules : Text → List Rule → List Span → List Span
unfolding claim_matches
claim_rules raw_text [] spans = spans
claim_rules raw_text (rule ∷ rules) spans =
    claim_rules raw_text rules (claim_matches rule.kind (rule.finditer raw_text) spans)

-- `DeterministicSpanProposer.propose`
unfoldable pub propose_by_rules : List Rule → Text → List Span
unfolding claim_rules sort_spans
propose_by_rules rules raw_text = sort_spans (claim_rules raw_text rules [])

-- What `json.loads` returns; a number that is no integer is not looked into.
mutual
  pub data Json : Type 0 where
    null real : Json
    boolean : Bool → Json
    integer : ℤ → Json
    string : Text → Json
    array : Elements → Json
    object : Members → Json

  pub data Elements : Type 0 where
    no_items : Elements
    item : Json → Elements → Elements

  pub data Members : Type 0 where
    no_members : Members
    member : Text → Json → Members → Members

pub data ProposerError : Type 0 where
  -- `SpanProposerError` with its fixed message
  unparseable : ProposerError
  -- what the backend raised
  backend_failed : ProposerError

-- `element[name]`
unfoldable pub field_of : Text → Members → Option Json
unfolding eq_text
field_of name no_members = none
field_of name (member key value rest) =
    let later = field_of name rest in if eq_text name key then some value else later

-- `isinstance(value, int)`, which is so of a Boolean too.
abbrev pub as_int : Json → Option ℤ
as_int (integer n) = some n
as_int (boolean true) = some (pos 1)
as_int (boolean false) = some (pos 0)
as_int _ = none

-- `isinstance(value, str)`
abbrev pub as_str : Json → Option Text
as_str (string t) = some t
as_str _ = none

-- `EntityKind(kind_raw)`
unfoldable pub find_kind : Text → List EntityKind → Option EntityKind
unfolding eq_text
find_kind t [] = none
find_kind t (kind ∷ kinds) =
    let later = find_kind t kinds in if eq_text t (kind_value kind) then some kind else later

-- `if start < 0 or end <= start: raise ...`
abbrev pub make_span : ℤ → ℤ → EntityKind → Result ProposerError Span
make_span (negsuc start) end kind = err unparseable
make_span (pos start) (negsuc end) kind = err unparseable
make_span (pos start) (pos end) kind =
    if leb end start then err unparseable else ok (record { start = start; end = end; kind = kind })

-- `try: kind = EntityKind(kind_raw)`, and what comes after it
abbrev pub with_kind : ℤ → ℤ → Option EntityKind → Result ProposerError Span
with_kind start end none = err unparseable
with_kind start end (some kind) = make_span start end kind

-- The two tests by `isinstance`, and what comes after them
abbrev pub with_values : Option ℤ → Option ℤ → Option Text → Result ProposerError Span
with_values (some start) (some end) (some name) = with_kind start end (find_kind name entity_kinds)
with_values _ _ _ = err unparseable

-- The three look-ups, and what comes after them
abbrev pub with_fields : Option Json → Option Json → Option Json → Result ProposerError Span
with_fields (some start) (some end) (some kind_raw) =
    with_values (as_int start) (as_int end) (as_str kind_raw)
with_fields _ _ _ = err unparseable

-- The body of the loop over the elements.
unfoldable pub parse_element : Json → Result ProposerError Span
unfolding field_of find_kind
parse_element (object members) =
    with_fields (field_of (codes "start") members) (field_of (codes "end") members)
      (field_of (codes "kind") members)
parse_element _ = err unparseable

-- `spans.append(Span(...))`
abbrev pub collect :
    Result ProposerError Span → Result ProposerError (List Span) → Result ProposerError (List Span)
collect (err cause) spans = err cause
collect (ok span) (err cause) = err cause
collect (ok span) (ok spans) = ok (span ∷ spans)

unfoldable pub parse_elements : Elements → Result ProposerError (List Span)
unfolding parse_element
parse_elements no_items = ok []
parse_elements (item element rest) = collect (parse_element element) (parse_elements rest)

-- `_parse_backend_response`, on what `json.loads` came to
unfoldable pub parse_payload : Option Json → Result ProposerError (List Span)
unfolding parse_elements
parse_payload (some (array elements)) = parse_elements elements
parse_payload _ = err unparseable

-- The check of the offsets against the text.
unfoldable pub check_ends : ℕ → List Span → Result ProposerError (Unit {0})
check_ends text_len [] = ok tt
check_ends text_len (span ∷ spans) =
    require (leb span.end text_len) unparseable >> check_ends text_len spans

abbrev pub backend_response : Option Text → Result ProposerError Text
backend_response none = err backend_failed
backend_response (some response) = ok response

-- `InferenceBackedSpanProposer.propose`
module _ (loads : Text → Option Json) (generate : Text → Option Text) (prompt : Text → Text) where
  unfoldable pub propose_by_inference : Text → Result ProposerError (List Span)
  unfolding parse_payload check_ends
  propose_by_inference raw_text = do
    response ← backend_response (generate (prompt raw_text))
    spans ← parse_payload (loads response)
    check_ends (length raw_text) spans
    ok spans

abbrev pub spans_or_none : Result ProposerError (List Span) → Option (List Span)
spans_or_none (err cause) = none
spans_or_none (ok spans) = some spans
