-- ===== src/Redactor/Order.antt =====
-- What the sorting of the spans keeps and brings about, and the spans of which `redact` skips none.
use yomotsusaka.Prelude.{
  ℕ, ◌≤◌, ◌<◌, Text, false, List, [], ◌∷◌, ◌++◌, All, All-append, length, leb, ◌⊎◌, inl, inr, ◌≡◌,
  refl, ap, arith, Bool-cases,
}
use yomotsusaka.Redactor.{Span, insert_span, sort_spans, skips}
use yomotsusaka.Redactor.Plan.{accepted, plan_of}

insert_span-All :
    (P : Span → Type 0) (s : Span) (ss : List Span) → P s → All P ss → All P (insert_span s ss)
unfolding insert_span
insert_span-All P s [] h k = (h, tt)
insert_span-All P s (x ∷ xs) h k = ground (arith, insert_span-All P s xs h k.1)

pub sort_spans-All : (P : Span → Type 0) (ss : List Span) → All P ss → All P (sort_spans ss)
unfolding sort_spans
sort_spans-All P [] h = tt
sort_spans-All P (s ∷ ss) h = insert_span-All P s (sort_spans ss) h.0 (sort_spans-All P ss h.1)

-- One of two ranges ends before the other starts, or where it starts.
abbrev pub Apart : Span → Span → Type 0
Apart s t = (s.end ≤ t.start) ⊎ (t.end ≤ s.start)

-- Every two spans of the list are apart.
abbrev pub Disjoint : List Span → Type 0
Disjoint [] = Unit
Disjoint (s ∷ ss) = All (Apart s) ss × Disjoint ss

-- No span starts before one in front of it.
abbrev pub Sorted : List Span → Type 0
Sorted [] = Unit
Sorted (s ∷ ss) = All (λ t. s.start ≤ t.start) ss × Sorted ss

pub Disjoint-snoc :
    (ss : List Span) (s : Span) → All (λ t. Apart t s) ss → Disjoint ss → Disjoint (ss ++ s ∷ [])
Disjoint-snoc [] s h d = (tt, tt)
Disjoint-snoc (t ∷ ss) s h d =
    (All-append (Apart t) ss (s ∷ []) d.0 (h.0, tt), Disjoint-snoc ss s h.1 d.1)

Apart-sym : (s t : Span) → Apart s t → Apart t s
Apart-sym s t (inl h) = inr h
Apart-sym s t (inr h) = inl h

pub All-imp :
    (P Q : Span → Type 0) (ss : List Span) → ((t : Span) → P t → Q t) → All P ss → All Q ss
All-imp P Q [] f h = tt
All-imp P Q (s ∷ ss) f h = (f s h.0, All-imp P Q ss f h.1)

insert_span-Disjoint :
    (s : Span) (ss : List Span) → All (Apart s) ss → Disjoint ss → Disjoint (insert_span s ss)
unfolding insert_span
insert_span-Disjoint s [] h d = (tt, tt)
insert_span-Disjoint s (x ∷ xs) h d = elim (Bool-cases (leb s.start x.start)) [
  | inl e ↦ rw e (h, d)
  | inr e ↦
      rw e
        (insert_span-All (Apart x) s xs (Apart-sym s x h.0) d.0, insert_span-Disjoint s xs h.1 d.1)
]

pub sort_spans-Disjoint : (ss : List Span) → Disjoint ss → Disjoint (sort_spans ss)
unfolding sort_spans
sort_spans-Disjoint [] d = tt
sort_spans-Disjoint (s ∷ ss) d =
    insert_span-Disjoint s (sort_spans ss) (sort_spans-All (Apart s) ss d.0)
      (sort_spans-Disjoint ss d.1)

insert_span-Sorted : (s : Span) (ss : List Span) → Sorted ss → Sorted (insert_span s ss)
unfolding insert_span
insert_span-Sorted s [] d = (tt, tt)
insert_span-Sorted s (x ∷ xs) d = elim (Bool-cases (leb s.start x.start)) [
  | inl e ↦ rw e (
    (
      ground arith,
      All-imp (λ t. x.start ≤ t.start) (λ t. s.start ≤ t.start) xs (λ t h. ground arith) d.0,
    ),
    d,
  )
  | inr e ↦ rw e (
    insert_span-All (λ t. x.start ≤ t.start) s xs (ground arith) d.0,
    insert_span-Sorted s xs d.1,
  )
]

pub sort_spans-Sorted : (ss : List Span) → Sorted (sort_spans ss)
unfolding sort_spans
sort_spans-Sorted [] = tt
sort_spans-Sorted (s ∷ ss) = insert_span-Sorted s (sort_spans ss) (sort_spans-Sorted ss)

insert_span-first :
    (s : Span) (ss : List Span) → All (λ t. s.start ≤ t.start) ss → insert_span s ss ≡ s ∷ ss
unfolding insert_span
insert_span-first s [] h = refl
insert_span-first s (x ∷ xs) h = ground arith

-- Sorting spans that are in order changes nothing.
sort_spans-Sorted_id : (ss : List Span) → Sorted ss → sort_spans ss ≡ ss
unfolding sort_spans
sort_spans-Sorted_id [] h = refl
sort_spans-Sorted_id (s ∷ ss) h = rw (sort_spans-Sorted_id ss h.1) (insert_span-first s ss h.0)

-- A span of at least one character that lies inside the text.
abbrev pub IsProper : Text → Span → Type 0
IsProper text s = (s.start < s.end) × (s.end ≤ length text)

-- What starts after a span and is apart from it starts behind it.
starts_behind :
    (text : Text) (s : Span) (ss : List Span)
    → All (λ t. s.start ≤ t.start) ss
    → All (Apart s) ss
    → All (IsProper text) ss
    → All (λ t. s.end ≤ t.start) ss
starts_behind text s [] after apart proper = tt
starts_behind text s (t ∷ ss) after apart proper =
    (ground arith, starts_behind text s ss after.1 apart.1 proper.1)

starts_anywhere : (ss : List Span) → All (λ s. 0 ≤ s.start) ss
starts_anywhere [] = tt
starts_anywhere (s ∷ ss) = (omega arith, starts_anywhere ss)

module _ (hexdigest : Text → Text) (text : Text) where
  accepted-proper :
      (cursor : ℕ) (ss : List Span)
      → All (λ s. cursor ≤ s.start) ss
      → Sorted ss
      → Disjoint ss
      → All (IsProper text) ss
      → accepted hexdigest text cursor ss ≡ ss
  unfolding accepted skips
  accepted-proper cursor [] after sorted apart proper = refl
  accepted-proper cursor (s ∷ ss) after sorted apart proper =
      let kept : skips hexdigest text s cursor ≡ false = ground arith in
      rw (kept, accepted)
        (ap (λ r. s ∷ r)
          (accepted-proper s.end ss (starts_behind text s ss sorted.0 apart.0 proper.1) sorted.1
            apart.1 proper.1))

  -- Of spans in order, apart, not empty and inside the text, `redact` skips none.
  pub plan_of-proper :
      (ss : List Span)
      → Sorted ss
      → Disjoint ss
      → All (IsProper text) ss
      → plan_of hexdigest text ss ≡ ss
  unfolding plan_of
  plan_of-proper ss sorted apart proper =
      rw (sort_spans-Sorted_id ss sorted)
        (accepted-proper 0 ss (starts_anywhere ss) sorted apart proper)

-- Some span of the list has the property.
abbrev pub AnyOf : (Span → Type 0) → List Span → Type 0
AnyOf P [] = ⊥
AnyOf P (s ∷ ss) = P s ⊎ AnyOf P ss

pub AnyOf-append :
    (P : Span → Type 0) (ss ts : List Span) → AnyOf P ss ⊎ AnyOf P ts → AnyOf P (ss ++ ts)
AnyOf-append P [] ts (inl h) = absurd h
AnyOf-append P [] ts (inr h) = h
AnyOf-append P (s ∷ ss) ts (inl (inl h)) = inl h
AnyOf-append P (s ∷ ss) ts (inl (inr h)) = inr (AnyOf-append P ss ts (inl h))
AnyOf-append P (s ∷ ss) ts (inr h) = inr (AnyOf-append P ss ts (inr h))

insert_span-AnyOf :
    (P : Span → Type 0) (s : Span) (ss : List Span) → P s ⊎ AnyOf P ss → AnyOf P (insert_span s ss)
unfolding insert_span
insert_span-AnyOf P s [] h = h
insert_span-AnyOf P s (x ∷ xs) h = elim (Bool-cases (leb s.start x.start)) [
  | inl e ↦ rw e h
  | inr e ↦ rw e (elim h [
    | inl k ↦ inr (insert_span-AnyOf P s xs (inl k))
    | inr (inl k) ↦ inl k
    | inr (inr k) ↦ inr (insert_span-AnyOf P s xs (inr k))
  ])
]

pub sort_spans-AnyOf : (P : Span → Type 0) (ss : List Span) → AnyOf P ss → AnyOf P (sort_spans ss)
unfolding sort_spans
sort_spans-AnyOf P [] h = absurd h
sort_spans-AnyOf P (s ∷ ss) (inl h) = insert_span-AnyOf P s (sort_spans ss) (inl h)
sort_spans-AnyOf P (s ∷ ss) (inr h) =
    insert_span-AnyOf P s (sort_spans ss) (inr (sort_spans-AnyOf P ss h))

abbrev pub IsIn : Span → List Span → Type 0
IsIn s ss = AnyOf (λ t. t ≡ s) ss
