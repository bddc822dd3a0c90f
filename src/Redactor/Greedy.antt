-- ===== src/Redactor/Greedy.antt =====
-- Which spans `redact` replaces, by a description without a loop.
use yomotsusaka.Prelude.{
  ℕ, ◌≤◌, ◌<◌, Text, ℤ, pos, List, [], ◌∷◌, ◌≡◌, ◌⊎◌, inl, inr, refl, ap, ◌∙◌, subst, sub_ℕ, ◌+ℤ◌,
  arith, length, slice, map, All, Bool-cases, true, false,
}
use yomotsusaka.Schemas.{EntityKind, EntityRecord, PrivateDictEntry}
use yomotsusaka.Redactor.{Span, Redaction, make_key, sort_spans, skips, redact}
use yomotsusaka.Redactor.Plan.{value_of, key_of, accepted, records, entries, plan_of, redact_plan}
use yomotsusaka.Redactor.Order.{
  Sorted, All-imp, sort_spans-All, sort_spans-Sorted, sort_spans-AnyOf, IsIn,
}

-- A span that reaches out of the text.
abbrev pub Outside : Text → Span → Type 0
Outside text s = (length text < s.start) ⊎ (length text < s.end)

-- A span that starts inside another one, which does not start behind it.
abbrev pub Covered : List Span → Span → Type 0
Covered chosen s = (c : Span) × IsIn c chosen × (c.start ≤ s.start) × (s.start < c.end)

-- Every span of the list ends before those that follow start.
abbrev pub InTurn : List Span → Type 0
InTurn [] = Unit
InTurn (s ∷ ss) = All (λ t. s.end ≤ t.start) ss × InTurn ss

-- A choice among spans that leaves out none without a reason.
pub record IsGreedy (text : Text) (spans chosen : List Span) : Type 0 where
  pub sorted : Sorted chosen
  pub in_turn : InTurn chosen
  pub given : All (λ s. IsIn s spans) chosen
  pub inside : All (λ s. (s.start ≤ length text) × (s.end ≤ length text)) chosen
  pub left_out : (s : Span) → IsIn s spans → IsIn s chosen ⊎ (Outside text s ⊎ Covered chosen s)

All-IsIn : (P : Span → Type 0) (s : Span) (ss : List Span) → All P ss → IsIn s ss → P s
All-IsIn P s [] h k = absurd k
All-IsIn P s (t ∷ ss) h (inl same) = subst P same h.0
All-IsIn P s (t ∷ ss) h (inr k) = All-IsIn P s ss h.1 k

All-IsIn_self : (ss : List Span) → All (λ s. IsIn s ss) ss
All-IsIn_self [] = tt
All-IsIn_self (s ∷ ss) =
    (inl refl, All-imp (λ t. IsIn t ss) (λ t. IsIn t (s ∷ ss)) ss (λ t h. inr h) (All-IsIn_self ss))

module _ (hexdigest : Text → Text) (text : Text) where
  accepted-All :
      (P : Span → Type 0) (cursor : ℕ) (ss : List Span)
      → All P ss
      → All P (accepted hexdigest text cursor ss)
  unfolding accepted
  accepted-All P cursor [] h = tt
  accepted-All P cursor (s ∷ ss) h = elim (Bool-cases (skips hexdigest text s cursor)) [
    | inl e ↦ rw (e, accepted) (accepted-All P cursor ss h.1)
    | inr e ↦ rw (e, accepted) (h.0, accepted-All P s.end ss h.1)
  ]

  accepted-Sorted :
      (cursor : ℕ) (ss : List Span) → Sorted ss → Sorted (accepted hexdigest text cursor ss)
  unfolding accepted
  accepted-Sorted cursor [] h = tt
  accepted-Sorted cursor (s ∷ ss) h = elim (Bool-cases (skips hexdigest text s cursor)) [
    | inl e ↦ rw (e, accepted) (accepted-Sorted cursor ss h.1)
    | inr e ↦
        rw (e, accepted)
          (accepted-All (λ t. s.start ≤ t.start) s.end ss h.0, accepted-Sorted s.end ss h.1)
  ]

  taken :
      (s : Span) (cursor : ℕ)
      → skips hexdigest text s cursor ≡ false
      → (cursor ≤ s.start) × (s.start ≤ length text) × (s.end ≤ length text)
  unfolding skips
  taken s cursor e = ground arith

  skipped :
      (s : Span) (cursor : ℕ)
      → skips hexdigest text s cursor ≡ true
      → (s.start < cursor) ⊎ Outside text s
  unfolding skips
  skipped s cursor e = ground arith

  accepted_inside :
      (cursor : ℕ) (ss : List Span)
      → All
          (λ s. (s.start ≤ length text) × (s.end ≤ length text))
          (accepted hexdigest text cursor ss)
  unfolding accepted
  accepted_inside cursor [] = tt
  accepted_inside cursor (s ∷ ss) = elim (Bool-cases (skips hexdigest text s cursor)) [
    | inl e ↦ rw (e, accepted) (accepted_inside cursor ss)
    | inr e ↦
        let (_, front, back) = taken s cursor e in
        rw (e, accepted) ((front, back), accepted_inside s.end ss)
  ]

  -- What is accepted starts behind the cursor.
  accepted_behind :
      (cursor : ℕ) (ss : List Span)
      → Sorted ss
      → All (λ t. cursor ≤ t.start) (accepted hexdigest text cursor ss)
  unfolding accepted
  accepted_behind cursor [] h = tt
  accepted_behind cursor (s ∷ ss) h = elim (Bool-cases (skips hexdigest text s cursor)) [
    | inl e ↦ rw (e, accepted) (accepted_behind cursor ss h.1)
    | inr e ↦
        let (first, _, _) = taken s cursor e in
        rw (e, accepted)
          (
            first,
            accepted-All (λ t. cursor ≤ t.start) s.end ss
                (All-imp (λ t. s.start ≤ t.start) (λ t. cursor ≤ t.start) ss (λ t k. omega arith)
                  h.0),
          )
  ]

  accepted-InTurn :
      (cursor : ℕ) (ss : List Span) → Sorted ss → InTurn (accepted hexdigest text cursor ss)
  unfolding accepted
  accepted-InTurn cursor [] h = tt
  accepted-InTurn cursor (s ∷ ss) h = elim (Bool-cases (skips hexdigest text s cursor)) [
    | inl e ↦ rw (e, accepted) (accepted-InTurn cursor ss h.1)
    | inr e ↦ rw (e, accepted) (accepted_behind s.end ss h.1, accepted-InTurn s.end ss h.1)
  ]

  -- Among `chosen`, which has all that is accepted, each span has its place or a reason to have none.
  accepted_left_out :
      (chosen : List Span) (cursor : ℕ) (ss : List Span)
      → Sorted ss
      → ((s : Span) → IsIn s (accepted hexdigest text cursor ss) → IsIn s chosen)
      → ((s : Span) → IsIn s ss → s.start < cursor → Covered chosen s)
      → (s : Span) → IsIn s ss
      → IsIn s chosen ⊎ (Outside text s ⊎ Covered chosen s)
  unfolding accepted
  accepted_left_out chosen cursor [] h kept cover s k = absurd k
  accepted_left_out chosen cursor (t ∷ ss) h kept cover s k =
      elim (Bool-cases (skips hexdigest text t cursor)) [
        | inl e ↦ elim k [
          | inl same ↦
              subst (λ x. IsIn x chosen ⊎ (Outside text x ⊎ Covered chosen x)) same
                (elim (skipped t cursor e) [
                  | inl early ↦ inr (inr (cover t (inl refl) early))
                  | inr out ↦ inr (inl out)
                ])
          | inr later ↦
              accepted_left_out chosen cursor ss h.1 (λ x m. kept x (rw (e, accepted) m))
                (λ x m. cover x (inr m)) s later
        ]
        | inr e ↦ elim k [
          | inl same ↦ inl (kept s (rw (e, accepted) (inl same)))
          | inr later ↦
              accepted_left_out chosen t.end ss h.1 (λ x m. kept x (rw (e, accepted) (inr m)))
                (λ x m early. (
                  t,
                  kept t (rw (e, accepted) (inl refl)),
                  All-IsIn (λ y. t.start ≤ y.start) x ss h.0 m,
                  early,
                ))
                s later
        ]
      ]

  plan_of-IsGreedy : (spans : List Span) → IsGreedy text spans (plan_of hexdigest text spans)
  unfolding plan_of
  plan_of-IsGreedy spans =
      let ordered = sort_spans-Sorted spans in
      record {
        sorted = accepted-Sorted 0 (sort_spans spans) ordered;
        in_turn = accepted-InTurn 0 (sort_spans spans) ordered;
        given =
            accepted-All (λ s. IsIn s spans) 0 (sort_spans spans)
              (sort_spans-All (λ s. IsIn s spans) spans (All-IsIn_self spans));
        inside = accepted_inside 0 (sort_spans spans);
        left_out = λ s there.
            accepted_left_out (accepted hexdigest text 0 (sort_spans spans)) 0 (sort_spans spans)
              ordered (λ x m. m) (λ x m early. absurd (omega arith)) s
              (sort_spans-AnyOf (λ t. t ≡ s) spans there);
      }

  -- The entry of the dictionary for a span.
  abbrev pub entry_for : Span → PrivateDictEntry
  entry_for s =
      let value = slice s.start s.end text in
      record { key = make_key hexdigest s.kind value; original_value = value; kind = s.kind }

  entries-map : (plan : List Span) → entries hexdigest text plan ≡ map entry_for plan
  unfolding entries
  entries-map [] = refl
  entries-map (s ∷ plan) = ap (λ r. entry_for s ∷ r) (entries-map plan)

  -- The kind and the key of a record.
  abbrev pub label_of : EntityRecord → EntityKind × Text
  label_of r = (r.kind, r.redacted_key)

  abbrev pub label_for : Span → EntityKind × Text
  label_for s = (s.kind, (entry_for s).key)

  records-map :
      (offset : ℤ) (plan : List Span)
      → map label_of (records hexdigest text offset plan) ≡ map label_for plan
  unfolding records
  records-map offset [] = refl
  records-map offset (s ∷ plan) =
      ap (λ r. label_for s ∷ r)
        (records-map
          (offset +ℤ sub_ℕ (length (key_of hexdigest text s)) (length (value_of hexdigest text s)))
          plan)

  -- What `redact` replaces is a greedy choice among the spans it is given, for every list of
  -- spans. The chosen spans are among those given, are in the order of their starts, each ends
  -- before the next ones start, and they lie inside the text; a span that is given and not chosen
  -- reaches out of the text, or starts before the end of a chosen span that does not start behind
  -- it. The private dictionary holds, in this order, the key and the value of each chosen span,
  -- and the entity records their kinds and keys.
  pub redact-IsGreedy :
      (spans : List Span)
      → let out = redact hexdigest text spans in
        (chosen : List Span) × IsGreedy text spans chosen
        × (out.private_dict ≡ map entry_for chosen)
        × (map label_of out.entity_records ≡ map label_for chosen)
  redact-IsGreedy spans =
      let plan = plan_of hexdigest text spans in
      let same = redact_plan hexdigest text spans in
      (
        plan,
        plan_of-IsGreedy spans,
        ap (λ (r : Redaction). r.private_dict) same ∙ entries-map plan,
        ap (λ (r : Redaction). map label_of r.entity_records) same ∙ records-map (pos 0) plan,
      )
