-- ===== src/SpanProposer/Responses.antt =====
-- What the proposer makes of a backend's response.
use yomotsusaka.Prelude.{
  ◌<◌, Text, codes, ℤ, pos, negsuc, Option, none, some, List, [], ◌∷◌, All, length, leb, leb→le,
  ◌≡◌, refl, subst, arith, Result, ok, err, >>=-eq-ok, inl, inr, true, false, Bool-cases,
}
use yomotsusaka.Schemas.{
  EntityKind, person, org, location, date, id_number, financial, health, custom, kind_value,
}
use yomotsusaka.Redactor.{Span}
use yomotsusaka.Redactor.Order.{IsProper}
use yomotsusaka.Validator.{entity_kinds}
use yomotsusaka.SpanProposer.{
  Json, null, real, boolean, integer, string, array, object, Elements, no_items, item, no_members,
  member, ProposerError, unparseable, field_of, find_kind, with_kind, with_values, with_fields,
  as_int, as_str, collect, make_span, parse_element, parse_elements, parse_payload, check_ends,
  backend_response, propose_by_inference,
}

-- A span of at least one character, if there is one.
abbrev IsForwardResult : Result ProposerError Span → Type 0
IsForwardResult (err cause) = Unit
IsForwardResult (ok span) = span.start < span.end

make_span-IsForward :
    (start end : ℤ) (kind : EntityKind) → IsForwardResult (make_span start end kind)
make_span-IsForward (negsuc start) end kind = tt
make_span-IsForward (pos start) (negsuc end) kind = tt
make_span-IsForward (pos start) (pos end) kind = ground arith

with_kind-IsForward :
    (start end : ℤ) (kind : Option EntityKind) → IsForwardResult (with_kind start end kind)
with_kind-IsForward start end none = tt
with_kind-IsForward start end (some kind) = make_span-IsForward start end kind

with_values-IsForward :
    (start end : Option ℤ) (name : Option Text) → IsForwardResult (with_values start end name)
with_values-IsForward none end name = tt
with_values-IsForward (some start) none name = tt
with_values-IsForward (some start) (some end) none = tt
with_values-IsForward (some start) (some end) (some name) =
    with_kind-IsForward start end (find_kind name entity_kinds)

with_fields-IsForward :
    (start end name : Option Json) → IsForwardResult (with_fields start end name)
with_fields-IsForward none end name = tt
with_fields-IsForward (some start) none name = tt
with_fields-IsForward (some start) (some end) none = tt
with_fields-IsForward (some start) (some end) (some name) =
    with_values-IsForward (as_int start) (as_int end) (as_str name)

parse_element-IsForward : (element : Json) → IsForwardResult (parse_element element)
unfolding parse_element
parse_element-IsForward null = tt
parse_element-IsForward real = tt
parse_element-IsForward (boolean b) = tt
parse_element-IsForward (integer n) = tt
parse_element-IsForward (string t) = tt
parse_element-IsForward (array elements) = tt
parse_element-IsForward (object members) =
    with_fields-IsForward (field_of (codes "start") members) (field_of (codes "end") members)
      (field_of (codes "kind") members)

abbrev AreForward : Result ProposerError (List Span) → Type 0
AreForward (err cause) = Unit
AreForward (ok spans) = All (λ s. s.start < s.end) spans

collected :
    (first : Result ProposerError Span) (rest : Result ProposerError (List Span))
    → IsForwardResult first
    → AreForward rest
    → AreForward (collect first rest)
collected (err cause) rest h k = tt
collected (ok span) (err cause) h k = tt
collected (ok span) (ok spans) h k = (h, k)

parse_elements-IsForward : (elements : Elements) → AreForward (parse_elements elements)
unfolding parse_elements
parse_elements-IsForward no_items = tt
parse_elements-IsForward (item element rest) =
    collected _ _ (parse_element-IsForward element) (parse_elements-IsForward rest)

payload-IsForward :
    (payload : Option Json) (spans : List Span)
    → parse_payload payload ≡ ok spans
    → All (λ s. s.start < s.end) spans
unfolding parse_payload
payload-IsForward none spans h = cc
payload-IsForward (some null) spans h = cc
payload-IsForward (some real) spans h = cc
payload-IsForward (some (boolean b)) spans h = cc
payload-IsForward (some (integer n)) spans h = cc
payload-IsForward (some (string t)) spans h = cc
payload-IsForward (some (object _)) spans h = cc
payload-IsForward (some (array elements)) spans h =
    subst AreForward h (parse_elements-IsForward elements)

check_ends-IsProper :
    (text : Text) (spans : List Span)
    → check_ends (length text) spans ≡ ok tt
    → All (λ s. s.start < s.end) spans
    → All (IsProper text) spans
unfolding check_ends
check_ends-IsProper text [] h k = tt
check_ends-IsProper text (span ∷ spans) h k = elim (Bool-cases (leb span.end (length text))) [
  | inl e ↦
      let rest : check_ends (length text) spans ≡ ok tt = rw (e, check_ends) at h in
      ((k.0, leb→le _ _ e), check_ends-IsProper text spans rest k.1)
  | inr e ↦ let refused : err unparseable ≡ ok tt = rw (e, check_ends) at h in cc
]

check_ends_ok :
    (text : Text) (spans : List Span)
    → All (IsProper text) spans
    → check_ends (length text) spans ≡ ok tt
unfolding check_ends
check_ends_ok text [] h = refl
check_ends_ok text (span ∷ spans) h =
    let inside : leb span.end (length text) ≡ true = ground arith in
    rw (inside, check_ends_ok text spans h.1) refl

-- The answer that the prompt asks for.
abbrev pub answer_of : Span → Json
answer_of span = object (
    member (codes "start") (integer (pos span.start)) (
      member (codes "end") (integer (pos span.end))
        (member (codes "kind") (string (kind_value span.kind)) no_members)))

abbrev pub answers_of : List Span → Elements
answers_of [] = no_items
answers_of (span ∷ spans) = item (answer_of span) (answers_of spans)

find_kind-kind_value : (kind : EntityKind) → find_kind (kind_value kind) entity_kinds ≡ some kind
unfolding find_kind
find_kind-kind_value person = refl
find_kind-kind_value org = refl
find_kind-kind_value location = refl
find_kind-kind_value date = refl
find_kind-kind_value id_number = refl
find_kind-kind_value financial = refl
find_kind-kind_value health = refl
find_kind-kind_value custom = refl

parse_element-answer_of :
    (text : Text) (span : Span) → IsProper text span → parse_element (answer_of span) ≡ ok span
unfolding parse_element
parse_element-answer_of text span h =
    let forward : leb span.end span.start ≡ false = ground arith in
    rw (find_kind-kind_value, forward) refl

parse_elements-answers_of :
    (text : Text) (spans : List Span)
    → All (IsProper text) spans
    → parse_elements (answers_of spans) ≡ ok spans
unfolding parse_elements
parse_elements-answers_of text [] h = refl
parse_elements-answers_of text (span ∷ spans) h =
    rw (parse_element-answer_of text span h.0, parse_elements-answers_of text spans h.1) refl

module _ (loads : Text → Option Json) (generate : Text → Option Text) (prompt : Text → Text) where
  -- If the proposer with a backend returns spans, then each of them has at least one character and
  -- ends inside the text, whatever the backend answers.
  pub propose_by_inference-IsProper :
      (raw_text : Text) (spans : List Span)
      → propose_by_inference loads generate prompt raw_text ≡ ok spans
      → All (IsProper raw_text) spans
  unfolding propose_by_inference
  propose_by_inference-IsProper raw_text spans h =
      let (response, _, h1) = >>=-eq-ok (backend_response (generate (prompt raw_text))) _ h in
      let (parsed, parse, h2) = >>=-eq-ok (parse_payload (loads response)) _ h1 in
      let (_, ends, same) =
        >>=-eq-ok (check_ends (length raw_text) parsed) (λ done. ok parsed) h2 in
      let same_spans : parsed ≡ spans = cc same in
      subst (All (IsProper raw_text)) same_spans
        (check_ends-IsProper raw_text parsed ends (payload-IsForward (loads response) parsed parse))

  pub propose_by_inference-answers_of :
      (raw_text response : Text) (spans : List Span)
      → generate (prompt raw_text) ≡ some response
      → loads response ≡ some (array (answers_of spans))
      → All (IsProper raw_text) spans
      → propose_by_inference loads generate prompt raw_text ≡ ok spans
  unfolding propose_by_inference parse_payload
  propose_by_inference-answers_of raw_text response spans g l h =
      rw (g, l, parse_elements-answers_of raw_text spans h, check_ends_ok raw_text spans h) refl
