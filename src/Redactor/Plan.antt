-- ===== src/Redactor/Plan.antt =====
-- The spans that the loop of `redact` replaces, and what it builds from them, by plain recursion.
use yomotsusaka.Prelude.{
  ℕ, Text, ℤ, pos, ◌+ℤ◌, sub_ℕ, List, [], ◌∷◌, ◌++◌, ◌≡◌, refl, length, drop, slice, concat,
  append_assoc, append-nil, Bool-cases, inl, inr, ap, sym, ◌∙◌, true, false,
}
use yomotsusaka.Schemas.{EntityRecord, PrivateDictEntry}
use yomotsusaka.Redactor.{
  Span, make_key, RedactState, Redaction, initial, sort_spans, skips, replace_span, redact_loop,
  redact,
}

module _ (hexdigest : Text → Text) (text : Text) where
  abbrev pub value_of : Span → Text
  value_of s = slice s.start s.end text

  abbrev pub key_of : Span → Text
  key_of s = make_key hexdigest s.kind (value_of s)

  -- The spans that pass both guards, from a cursor on.
  unfoldable pub accepted : ℕ → List Span → List Span
  accepted cursor [] = []
  accepted cursor (s ∷ ss) = elim (skips hexdigest text s cursor) [
    | true ↦ accepted cursor ss
    | false ↦ s ∷ accepted s.end ss
  ]

  -- The redacted text that remains to be written when the cursor has come to `cursor`.
  unfoldable pub weave : ℕ → List Span → Text
  weave cursor [] = drop cursor text
  weave cursor (s ∷ ss) = slice cursor s.start text ++ (key_of s ++ weave s.end ss)

  unfoldable pub records : ℤ → List Span → List EntityRecord
  records offset [] = []
  records offset (s ∷ ss) =
      record {
        kind = s.kind;
        redacted_key = key_of s;
        start_char = pos s.start +ℤ offset;
        end_char = pos s.start +ℤ offset +ℤ pos (length (key_of s));
      }
      ∷ records (offset +ℤ sub_ℕ (length (key_of s)) (length (value_of s))) ss

  unfoldable pub entries : List Span → List PrivateDictEntry
  entries [] = []
  entries (s ∷ ss) =
      record { key = key_of s; original_value = value_of s; kind = s.kind } ∷ entries ss

concat-append {ℓ} :
    {A : Type ℓ} (xss yss : List (List A)) → concat (xss ++ yss) ≡ concat xss ++ concat yss
concat-append [] yss = refl
concat-append (xs ∷ xss) yss =
    ap (λ r. xs ++ r) (concat-append xss yss) ∙ sym (append_assoc xs (concat xss) (concat yss))

module _ (hexdigest : Text → Text) (text : Text) where
  abbrev finished : RedactState → Redaction
  finished st = record {
    redacted_text = concat (st.parts ++ drop st.cursor text ∷ []);
    entity_records = st.entity_records;
    private_dict = st.private_dict;
  }

  abbrev planned : RedactState → List Span → Redaction
  planned st plan = record {
    redacted_text = concat st.parts ++ weave hexdigest text st.cursor plan;
    entity_records = st.entity_records ++ records hexdigest text st.offset plan;
    private_dict = st.private_dict ++ entries hexdigest text plan;
  }

  planned-replace_span :
      (s : Span) (st : RedactState) (plan : List Span)
      → planned (replace_span hexdigest text s st) plan ≡ planned st (s ∷ plan)
  unfolding replace_span weave records entries
  planned-replace_span s st plan = simp (concat-append, append_assoc, append-nil)

  redact_loop_lem :
      (ss : List Span) (st : RedactState)
      → finished (redact_loop hexdigest text ss st)
        ≡ planned st (accepted hexdigest text st.cursor ss)
  unfolding redact_loop accepted
  redact_loop_lem [] st = unfold weave records entries in simp (concat-append, append-nil)
  redact_loop_lem (s ∷ ss) st = elim (Bool-cases (skips hexdigest text s st.cursor)) [
    | inl e ↦ rw (e, redact_loop, accepted) (redact_loop_lem ss st)
    | inr e ↦
        rw (e, redact_loop, accepted)
          (redact_loop_lem ss (replace_span hexdigest text s st) ∙ planned-replace_span s st _)
  ]

  -- The spans that `redact` replaces, in the order of the text.
  unfoldable pub plan_of : List Span → List Span
  plan_of spans = accepted hexdigest text 0 (sort_spans spans)

  -- What `redact` returns, by recursion on the spans that it replaces.
  pub redact_plan :
      (spans : List Span)
      → redact hexdigest text spans ≡ record {
        redacted_text = weave hexdigest text 0 (plan_of spans);
        entity_records = records hexdigest text (pos 0) (plan_of spans);
        private_dict = entries hexdigest text (plan_of spans);
      }
  unfolding redact plan_of
  redact_plan spans = redact_loop_lem (sort_spans spans) initial
