-- ===== src/SpanProposer/Claims.antt =====
-- What the rules' proposer returns: spans in order and apart, and each match accounted for.
use yomotsusaka.Prelude.{
  ℕ, ◌≤◌, ◌<◌, Text, true, false, List, [], ◌∷◌, ◌++◌, any, All, All-append, ◌⊎◌, inl, inr, ◌≡◌,
  refl, arith, Bool-cases, length,
}
use yomotsusaka.Schemas.{EntityKind}
use yomotsusaka.Redactor.{Span, sort_spans}
use yomotsusaka.Redactor.Plan.{plan_of}
use yomotsusaka.Redactor.Order.{
  Apart, Disjoint, Sorted, Disjoint-snoc, sort_spans-Sorted, sort_spans-All, AnyOf, AnyOf-append,
  IsIn, sort_spans-AnyOf, sort_spans-Disjoint, IsProper, plan_of-proper,
}
use yomotsusaka.SpanProposer.{Rule, overlaps, claim_matches, claim_rules, propose_by_rules}

free-Apart :
    (kind : EntityKind) (start end : ℕ) (spans : List Span)
    → any (overlaps start end) spans ≡ false
    → All (λ t. Apart t (record { start = start; end = end; kind = kind })) spans
free-Apart kind start end [] h = tt
free-Apart kind start end (t ∷ spans) h =
    (ground arith, free-Apart kind start end spans (ground arith))

claim_matches-Disjoint :
    (kind : EntityKind) (matches : List (ℕ × ℕ)) (spans : List Span)
    → Disjoint spans
    → Disjoint (claim_matches kind matches spans)
unfolding claim_matches
claim_matches-Disjoint kind [] spans d = d
claim_matches-Disjoint kind ((start, end) ∷ matches) spans d =
    elim (Bool-cases (any (overlaps start end) spans)) [
      | inl e ↦ rw e (claim_matches-Disjoint kind matches spans d)
      | inr e ↦ rw e (
          claim_matches-Disjoint kind matches
            (spans ++ record { start = start; end = end; kind = kind } ∷ [])
            (Disjoint-snoc spans (record { start = start; end = end; kind = kind })
              (free-Apart kind start end spans e) d))
    ]

claim_rules-Disjoint :
    (raw_text : Text) (rules : List Rule) (spans : List Span)
    → Disjoint spans
    → Disjoint (claim_rules raw_text rules spans)
unfolding claim_rules
claim_rules-Disjoint raw_text [] spans d = d
claim_rules-Disjoint raw_text (rule ∷ rules) spans d =
    claim_rules-Disjoint raw_text rules _
      (claim_matches-Disjoint rule.kind (rule.finditer raw_text) spans d)

claim_matches-All :
    (P : Span → Type 0) (kind : EntityKind) (matches : List (ℕ × ℕ)) (spans : List Span)
    → All P spans
    → All (λ m. P (record { start = m.0; end = m.1; kind = kind })) matches
    → All P (claim_matches kind matches spans)
unfolding claim_matches
claim_matches-All P kind [] spans h k = h
claim_matches-All P kind ((start, end) ∷ matches) spans h k =
    elim (Bool-cases (any (overlaps start end) spans)) [
      | inl e ↦ rw e (claim_matches-All P kind matches spans h k.1)
      | inr e ↦ rw e (claim_matches-All P kind matches _ (All-append P spans _ h (k.0, tt)) k.1)
    ]

-- Every match of every rule is of at least one character inside the text.
abbrev pub AllProper : Text → List Rule → Type 0
AllProper raw_text rules =
    All (λ rule. All (λ m. (m.0 < m.1) × (m.1 ≤ length raw_text)) (rule.finditer raw_text)) rules

claim_rules-IsProper :
    (raw_text : Text) (rules : List Rule) (spans : List Span)
    → All (IsProper raw_text) spans
    → AllProper raw_text rules
    → All (IsProper raw_text) (claim_rules raw_text rules spans)
unfolding claim_rules
claim_rules-IsProper raw_text [] spans h k = h
claim_rules-IsProper raw_text (rule ∷ rules) spans h k =
    claim_rules-IsProper raw_text rules _
      (claim_matches-All (IsProper raw_text) rule.kind (rule.finditer raw_text) spans h k.0) k.1

claim_matches-AnyOf :
    (P : Span → Type 0) (kind : EntityKind) (matches : List (ℕ × ℕ)) (spans : List Span)
    → AnyOf P spans
    → AnyOf P (claim_matches kind matches spans)
unfolding claim_matches
claim_matches-AnyOf P kind [] spans h = h
claim_matches-AnyOf P kind ((start, end) ∷ matches) spans h =
    elim (Bool-cases (any (overlaps start end) spans)) [
      | inl e ↦ rw e (claim_matches-AnyOf P kind matches spans h)
      | inr e ↦ rw e (claim_matches-AnyOf P kind matches _ (AnyOf-append P spans _ (inl h)))
    ]

claim_rules-AnyOf :
    (P : Span → Type 0) (raw_text : Text) (rules : List Rule) (spans : List Span)
    → AnyOf P spans
    → AnyOf P (claim_rules raw_text rules spans)
unfolding claim_rules
claim_rules-AnyOf P raw_text [] spans h = h
claim_rules-AnyOf P raw_text (rule ∷ rules) spans h =
    claim_rules-AnyOf P raw_text rules _
      (claim_matches-AnyOf P rule.kind (rule.finditer raw_text) spans h)

claim_matches-append :
    (kind : EntityKind) (ms ns : List (ℕ × ℕ)) (spans : List Span)
    → claim_matches kind (ms ++ ns) spans ≡ claim_matches kind ns (claim_matches kind ms spans)
unfolding claim_matches
claim_matches-append kind [] ns spans = refl
claim_matches-append kind (m ∷ ms) ns spans = claim_matches-append kind ms ns _

claim_rules-append :
    (raw_text : Text) (front back : List Rule) (spans : List Span)
    → claim_rules raw_text (front ++ back) spans
      ≡ claim_rules raw_text back (claim_rules raw_text front spans)
unfolding claim_rules
claim_rules-append raw_text [] back spans = refl
claim_rules-append raw_text (rule ∷ front) back spans = claim_rules-append raw_text front back _

pub propose_by_rules-Disjoint :
    (rules : List Rule) (raw_text : Text)
    → Sorted (propose_by_rules rules raw_text) × Disjoint (propose_by_rules rules raw_text)
unfolding propose_by_rules
propose_by_rules-Disjoint rules raw_text = (
  sort_spans-Sorted (claim_rules raw_text rules []),
  sort_spans-Disjoint (claim_rules raw_text rules []) (claim_rules-Disjoint raw_text rules [] tt),
)

-- If every match of every rule has at least one character and lies inside the text, then `redact`
-- skips none of the spans that the rules' proposer returns and takes them in the order in which
-- they are returned.
pub plan_of-propose_by_rules :
    (hexdigest : Text → Text) (rules : List Rule) (raw_text : Text)
    → AllProper raw_text rules
    → plan_of hexdigest raw_text (propose_by_rules rules raw_text) ≡ propose_by_rules rules raw_text
plan_of-propose_by_rules hexdigest rules raw_text h =
    let (sorted, apart) = propose_by_rules-Disjoint rules raw_text in
    plan_of-proper hexdigest raw_text _ sorted apart (
      unfold propose_by_rules in
      sort_spans-All (IsProper raw_text) _ (claim_rules-IsProper raw_text rules [] tt h))

-- What is claimed when the matches `ms` of `rule` are done, after the rules `front`.
abbrev pub claimed_before : Text → List Rule → Rule → List (ℕ × ℕ) → List Span
claimed_before raw_text front rule ms = claim_matches rule.kind ms (claim_rules raw_text front [])

-- A claimed range that a match starts before the end of and ends behind the start of.
abbrev pub Rival : ℕ → ℕ → Span → Type 0
Rival start end s = (start < s.end) × (s.start < end)

Rival-of :
    (start end : ℕ) (spans : List Span)
    → any (overlaps start end) spans ≡ true
    → (s : Span) × IsIn s spans × Rival start end s
Rival-of start end [] h = absurd (cc)
Rival-of start end (s ∷ spans) h = elim (Bool-cases (overlaps start end s)) [
  | inl e ↦ (s, inl refl, ground arith)
  | inr e ↦ let (t, there, rival) = Rival-of start end spans (ground arith) in (t, inr there, rival)
]

-- What is claimed is proposed in the end.
claimed-AnyOf :
    (P : Span → Type 0) (kind : EntityKind) (ns : List (ℕ × ℕ)) (raw_text : Text) (back : List Rule)
    (spans : List Span)
    → AnyOf P spans
    → AnyOf P (sort_spans (claim_rules raw_text back (claim_matches kind ns spans)))
claimed-AnyOf P kind ns raw_text back spans h =
    sort_spans-AnyOf P _
      (claim_rules-AnyOf P raw_text back _ (claim_matches-AnyOf P kind ns spans h))

-- Each match of each rule is proposed with that rule's kind, or else it starts before the end, and
-- ends behind the start, of a span that is proposed and that was claimed before it, by an earlier
-- rule or by an earlier match of the same rule.
pub propose_by_rules-priority :
    (front : List Rule) (rule : Rule) (back : List Rule) (raw_text : Text) (ms ns : List (ℕ × ℕ))
    (start end : ℕ)
    → rule.finditer raw_text ≡ ms ++ (start, end) ∷ ns
    → let proposed = propose_by_rules (front ++ rule ∷ back) raw_text in
      IsIn (record { start = start; end = end; kind = rule.kind }) proposed
      ⊎ ((s : Span) × IsIn s (claimed_before raw_text front rule ms)
          × IsIn s proposed
          × Rival start end s)
unfolding propose_by_rules claim_rules
propose_by_rules-priority front rule back raw_text ms ns start end found =
    let before = claimed_before raw_text front rule ms in
    rw (claim_rules-append, claim_rules, found, claim_matches-append)
      (elim (Bool-cases (any (overlaps start end) before)) [
        | inl e ↦
            let (s, there, rival) = Rival-of start end before e in
            inr (
              s,
              there,
              rw e (claimed-AnyOf (λ t. t ≡ s) rule.kind ns raw_text back before there),
              rival,
            )
        | inr e ↦
            let span : Span = record { start = start; end = end; kind = rule.kind } in
            inl (
              rw e (
                claimed-AnyOf (λ t. t ≡ span) rule.kind ns raw_text back (before ++ span ∷ [])
                  (AnyOf-append (λ t. t ≡ span) before _ (inr (inl refl)))))
      ])
