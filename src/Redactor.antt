-- ===== src/Redactor.antt =====
-- The span-based redactor (src/yomotsusaka/redactor.py). `hexdigest` stands for
-- `hashlib.sha256(value.encode()).hexdigest()`. A span's bounds are numbers that are not negative,
-- as `SpanSpec` admits them; `end < start` is possible, as in the source.
pub mod Plan
pub mod Order
pub mod Reveal
pub mod Keys
pub mod Greedy
use yomotsusaka.Prelude.{
  ℕ, ◌+◌, ◌-◌, Text, codes, ℤ, pos, ◌+ℤ◌, sub_ℕ, Bool, List, [], ◌∷◌, ◌++◌, length, take, drop,
  slice, concat, ltb, leb, ◌||◌, if◌then◌else◌,
}
use yomotsusaka.Schemas.{EntityKind, kind_value, EntityRecord, PrivateDictEntry}

pub record Span : Type 0 where
  pub start : ℕ
  pub end : ℕ
  pub kind : EntityKind

-- `_make_key`
unfoldable pub make_key : (Text → Text) → EntityKind → Text → Text
make_key hexdigest kind value =
    codes "<" ++ (kind_value kind ++ (codes "_" ++ (take 8 (hexdigest value) ++ codes ">")))

-- `sorted(spans, key=lambda s: s.start)`, which is stable.
insert_span : Span → List Span → List Span
insert_span s [] = s ∷ []
insert_span s (x ∷ xs) = if leb s.start x.start then s ∷ x ∷ xs else x ∷ insert_span s xs

unfoldable pub sort_spans : List Span → List Span
unfolding insert_span
sort_spans [] = []
sort_spans (s ∷ ss) = insert_span s (sort_spans ss)

-- The variables of the loop.
pub record RedactState : Type 0 where
  pub entity_records : List EntityRecord
  pub private_dict : List PrivateDictEntry
  pub parts : List Text
  pub cursor : ℕ
  pub offset : ℤ

abbrev initial : RedactState
initial = record { entity_records = []; private_dict = []; parts = []; cursor = 0; offset = pos 0 }

-- What `redact` returns.
pub record Redaction : Type 0 where
  pub redacted_text : Text
  pub entity_records : List EntityRecord
  pub private_dict : List PrivateDictEntry

module _ (hexdigest : Text → Text) (text : Text) where
  -- The part of the loop's body after its two guards.
  replace_span : Span → RedactState → RedactState
  unfolding ◌+ℤ◌
  replace_span span st =
      let original_value = slice span.start span.end text in
      let key = make_key hexdigest span.kind original_value in
      let redacted_start = pos span.start +ℤ st.offset in
      record {
        entity_records =
            st.entity_records
            ++ record {
              kind = span.kind;
              redacted_key = key;
              start_char = redacted_start;
              end_char = redacted_start +ℤ pos (length key);
            }
              ∷ [];
        private_dict =
            st.private_dict
            ++ record { key = key; original_value = original_value; kind = span.kind } ∷ [];
        parts = st.parts ++ slice st.cursor span.start text ∷ key ∷ [];
        cursor = span.end;
        offset = st.offset +ℤ sub_ℕ (length key) (length original_value);
      }

  -- The two `continue`s.
  unfoldable pub skips : Span → ℕ → Bool
  skips span cursor =
      ltb span.start cursor || (ltb (length text) span.start || ltb (length text) span.end)

  redact_loop : List Span → RedactState → RedactState
  unfolding replace_span skips
  redact_loop [] st = st
  redact_loop (span ∷ rest) st =
      redact_loop rest (if skips span st.cursor then st else replace_span span st)

  unfoldable pub redact : List Span → Redaction
  unfolding redact_loop sort_spans
  redact spans =
      let st = redact_loop (sort_spans spans) initial in
      record {
        redacted_text = concat (st.parts ++ drop st.cursor text ∷ []);
        entity_records = st.entity_records;
        private_dict = st.private_dict;
      }
