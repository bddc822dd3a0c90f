-- ===== src/Redactor/Reveal.antt =====
-- What an authorised reader can do with the output of `redact`: put the values back.
use yomotsusaka.Prelude.{
  ℕ, ◌+◌, ◌-◌, ◌≤◌, Text, ℤ, pos, pos_part, neg_part, ◌+ℤ◌, +ℤ-pos, +ℤ_parts, sub_ℕ, List, [], ◌∷◌,
  ◌++◌, ◌≡◌, refl, length, drop, slice, length-append, drop-length, append_assoc, All, Bool-cases,
  inl, inr, ap, ap₂, slice-parts, slice-append-drop, length-slice, ◌∙◌, false, arith,
}
use yomotsusaka.Schemas.{EntityRecord, PrivateDictEntry}
use yomotsusaka.Redactor.{Span, Redaction, sort_spans, skips, redact}
use yomotsusaka.Redactor.Order.{sort_spans-All}
use yomotsusaka.Redactor.Plan.{
  value_of, key_of, accepted, weave, records, entries, plan_of, redact_plan,
}

-- The text with each entity's characters, from `start_char` to `end_char`, replaced by the value
-- of the private entry at the same place in the dictionary.
unfoldable pub reveal_from : ℕ → Text → List EntityRecord → List PrivateDictEntry → Text
reveal_from cursor red (e ∷ es) (p ∷ ps) =
    slice cursor (pos_part e.start_char) red
    ++ (p.original_value ++ reveal_from (pos_part e.end_char) red es ps)
reveal_from cursor red _ _ = drop cursor red

unfoldable pub reveal : Redaction → Text
unfolding reveal_from
reveal r = reveal_from 0 r.redacted_text r.entity_records r.private_dict

-- `SpanSpec` admits a span only if it ends no earlier than it starts.
abbrev pub IsForward : Span → Type 0
IsForward s = s.start ≤ s.end

-- Spans in the order of the text, apart from one another and inside it.
abbrev pub Chain : Text → ℕ → List Span → Type 0
Chain text cursor [] = cursor ≤ length text
Chain text cursor (s ∷ ss) =
    (cursor ≤ s.start) × (s.start ≤ s.end) × (s.end ≤ length text) × Chain text s.end ss

module _ (hexdigest : Text → Text) (text : Text) where
  skips-false :
      (s : Span) (cursor : ℕ)
      → skips hexdigest text s cursor ≡ false
      → (cursor ≤ s.start) × (s.end ≤ length text)
  unfolding skips
  skips-false s cursor h = ground arith

  accepted-Chain :
      (cursor : ℕ) (ss : List Span)
      → cursor ≤ length text
      → All IsForward ss
      → Chain text cursor (accepted hexdigest text cursor ss)
  unfolding accepted
  accepted-Chain cursor [] h k = h
  accepted-Chain cursor (s ∷ ss) h k = elim (Bool-cases (skips hexdigest text s cursor)) [
    | inl e ↦ rw (e, accepted) (accepted-Chain cursor ss h k.1)
    | inr e ↦
        let (after, inside) = skips-false s cursor e in
        rw (e, accepted) (after, k.0, inside, accepted-Chain s.end ss inside k.1)
  ]

  pub plan_of-Chain :
      (spans : List Span) → All IsForward spans → Chain text 0 (plan_of hexdigest text spans)
  unfolding plan_of
  plan_of-Chain spans h =
      accepted-Chain 0 (sort_spans spans) (omega arith) (sort_spans-All IsForward spans h)

sub_ℕ_parts : (a b : ℕ) → pos_part (sub_ℕ a b) + b ≡ neg_part (sub_ℕ a b) + a
sub_ℕ_parts a b = ground arith

-- `pre` is what is written already; the offset is its length less the cursor.
abbrev IsOffset : ℤ → Text → ℕ → Type 0
IsOffset offset pre cursor = length pre + neg_part offset ≡ cursor + pos_part offset

-- One entity put back, in a redacted text that is known by its parts.
put_back :
    (pre gap k rest : Text) (e : EntityRecord) (es : List EntityRecord) (p : PrivateDictEntry)
    (ps : List PrivateDictEntry)
    → e.start_char ≡ pos (length pre + length gap)
    → e.end_char ≡ pos (length pre + length gap + length k)
    → reveal_from (length pre) (pre ++ (gap ++ (k ++ rest))) (e ∷ es) (p ∷ ps)
      ≡ gap
        ++ (p.original_value
            ++ reveal_from (length (pre ++ (gap ++ k))) ((pre ++ (gap ++ k)) ++ rest) es ps)
unfolding reveal_from
put_back pre gap k rest e es p ps starts ends =
    let total : length pre + length gap + length k ≡ length (pre ++ (gap ++ k)) =
      omega (arith, length-append pre (gap ++ k), length-append gap k) in
    let regroup : pre ++ (gap ++ (k ++ rest)) ≡ (pre ++ (gap ++ k)) ++ rest = simp append_assoc in
    ap₂ (λ (x y : Text). x ++ (p.original_value ++ y))
      (ap (λ i. slice (length pre) (pos_part i) (pre ++ (gap ++ (k ++ rest)))) starts
        ∙ slice-parts pre gap (k ++ rest) (length pre) _ refl refl)
      (ap₂ (λ i t. reveal_from i t es ps) (ap pos_part ends ∙ total) regroup)

module _ (hexdigest : Text → Text) (text : Text) where
  reveal_from-weave :
      (ss : List Span) (pre : Text) (cursor : ℕ) (offset : ℤ)
      → Chain text cursor ss
      → IsOffset offset pre cursor
      → reveal_from
          (length pre)
          (pre ++ weave hexdigest text cursor ss)
          (records hexdigest text offset ss)
          (entries hexdigest text ss)
        ≡ drop cursor text
  unfolding weave records entries
  reveal_from-weave [] pre cursor offset c o =
      unfold reveal_from in drop-length pre (drop cursor text)
  reveal_from-weave (s ∷ ss) pre cursor offset (after, forward, inside, rest) o =
      let gap = slice cursor s.start text in
      let k = key_of hexdigest text s in
      let v = value_of hexdigest text s in
      let gap_length : length gap ≡ s.start - cursor =
        length-slice cursor s.start text (omega arith) in
      let v_length : length v ≡ s.end - s.start = length-slice s.start s.end text inside in
      let start_at : pos s.start +ℤ offset ≡ pos (length pre + length gap) =
        +ℤ-pos (pos s.start) offset _ (omega arith) in
      let end_at : pos s.start +ℤ offset +ℤ pos (length k)
          ≡ pos (length pre + length gap + length k) =
        ap (λ i. i +ℤ pos (length k)) start_at ∙ +ℤ-pos _ (pos (length k)) _ (omega arith) in
      let offset' = offset +ℤ sub_ℕ (length k) (length v) in
      let offset'_lem : IsOffset offset' (pre ++ (gap ++ k)) s.end = omega (
        arith,
        length-append pre (gap ++ k),
        length-append gap k,
        +ℤ_parts offset (sub_ℕ (length k) (length v)),
        sub_ℕ_parts (length k) (length v),
      ) in
      put_back pre gap k (weave hexdigest text s.end ss) _ _ _ _ start_at end_at
      ∙ (ap (λ r. gap ++ (v ++ r))
            (reveal_from-weave ss (pre ++ (gap ++ k)) s.end offset' rest offset'_lem)
          ∙ (ap (λ r. gap ++ r) (slice-append-drop s.start s.end text forward)
              ∙ slice-append-drop cursor s.start text after))

  -- Replacing, at the positions that the entity records give, each key of the redacted text by the
  -- value in the dictionary gives back the text that was redacted. It holds for every list of
  -- spans, overlapping, unsorted or out of range, in which no span ends before it starts.
  pub reveal-redact :
      (spans : List Span) → All IsForward spans → reveal (redact hexdigest text spans) ≡ text
  unfolding reveal
  reveal-redact spans h = rw redact_plan (
      reveal_from-weave (plan_of hexdigest text spans) [] 0 (pos 0)
        (plan_of-Chain hexdigest text spans h) refl)
