-- ===== src/BatchQueue/Laws.antt =====
-- The invariant of the batches, over all calls.
use yomotsusaka.Prelude.{
  ℕ, Text, eq_text, eq_text_sound, Bool, true, none, some, [], ◌∷◌, ◌++◌, ◌≡◌, ◌⊎◌, refl, sym, ap,
  subst, ◌∙◌, arith, ok, inl, inr, Bool-cases, Option-cases,
}
use yomotsusaka.BatchQueue.{
  BatchStatus, pending, running, done, failed, BatchState, Batches, put_batch, is_pending,
  is_running, new_batch, begun, completed, gave_up, Call, submit, start, complete, fail,
  change_batch, call_queue,
}

-- What the fields of a batch say at each status.
abbrev pub IsConsistentAt : BatchStatus → BatchState → Type 0
IsConsistentAt pending b =
    (b.started_at ≡ none) × (b.finished_at ≡ none) × (b.manifests ≡ []) × (b.errors ≡ [])
IsConsistentAt running b =
    ((t : ℕ) × (b.started_at ≡ some t))
    × (b.finished_at ≡ none)
    × (b.manifests ≡ [])
    × (b.errors ≡ [])
IsConsistentAt done b =
    ((t : ℕ) × (b.started_at ≡ some t)) × ((t : ℕ) × (b.finished_at ≡ some t)) × (b.errors ≡ [])
IsConsistentAt failed b =
    ((t : ℕ) × (b.started_at ≡ some t))
    × ((t : ℕ) × (b.finished_at ≡ some t))
    × (b.manifests ≡ [])
    × ((e : Text) × (b.errors ≡ e ∷ []))

abbrev pub IsConsistent : Batches → Type 0
IsConsistent q = (id : Text) (b : BatchState) → q id ≡ some b → IsConsistentAt b.status b

put_batch-IsConsistent :
    (id : Text) (b : BatchState) (q : Batches)
    → IsConsistentAt b.status b
    → IsConsistent q
    → IsConsistent (put_batch id b q)
unfolding put_batch
put_batch-IsConsistent id b q h all other x e = elim (Bool-cases (eq_text id other)) [
  | inl s ↦ let same : b ≡ x = ground arith in subst (λ y. IsConsistentAt y.status y) same h
  | inr s ↦ all other x (ground arith)
]

change_batch-IsConsistent :
    (id : Text) (test : BatchStatus → Bool) (change : BatchState → BatchState) (q q' : Batches)
    → ((b : BatchState)
        → test b.status ≡ true
        → IsConsistentAt b.status b
        → IsConsistentAt (change b).status (change b))
    → IsConsistent q
    → change_batch id test change q ≡ ok q'
    → IsConsistent q'
unfolding change_batch
change_batch-IsConsistent id test change q q' keeps all e = elim (Option-cases (q id)) [
  | inl n ↦ absurd (ground arith)
  | inr (b, found) ↦ elim (Bool-cases (test b.status)) [
    | inl t ↦
        let same : put_batch id (change b) q ≡ q' = ground arith in
        subst IsConsistent same
          (put_batch-IsConsistent id (change b) q (keeps b t (all id b found)) all)
    | inr t ↦ absurd (ground arith)
  ]
]

at_pending :
    (s : BatchStatus) (b : BatchState)
    → is_pending s ≡ true
    → IsConsistentAt s b
    → IsConsistentAt pending b
at_pending pending b t h = h
at_pending running b t h = cc
at_pending done b t h = cc
at_pending failed b t h = cc

at_running :
    (s : BatchStatus) (b : BatchState)
    → is_running s ≡ true
    → IsConsistentAt s b
    → IsConsistentAt running b
at_running pending b t h = cc
at_running running b t h = h
at_running done b t h = cc
at_running failed b t h = cc

-- Every call of the queue that succeeds keeps all batches consistent: a batch that waits has no
-- times, manifests or errors, one that runs has only its start, one that is done has both times
-- and no error, and one that failed has both times, no manifest and exactly one error.
pub call_queue-IsConsistent :
    (call : Call) (q q' : Batches) → IsConsistent q → call_queue call q ≡ ok q' → IsConsistent q'
unfolding call_queue
call_queue-IsConsistent (submit id refs) q q' all e =
    let same : put_batch id (new_batch refs) q ≡ q' = cc in
    subst IsConsistent same
      (put_batch-IsConsistent id (new_batch refs) q (refl, refl, refl, refl) all)
call_queue-IsConsistent (start id now) q q' all e =
    change_batch-IsConsistent id is_pending (begun now) q q'
      (λ b t h. let (_, f, m, r) = at_pending b.status b t h in ((now, refl), f, m, r)) all e
call_queue-IsConsistent (complete id now manifests) q q' all e =
    change_batch-IsConsistent id is_running (completed now manifests) q q'
      (λ b t h. let (s, _, _, r) = at_running b.status b t h in (s, (now, refl), r)) all e
call_queue-IsConsistent (fail id now error) q q' all e =
    change_batch-IsConsistent id is_running (gave_up now error) q q'
      (λ b t h.
        let (s, _, m, r) = at_running b.status b t h in
        (s, (now, refl), m, (error, ap (λ xs. xs ++ error ∷ []) r)))
      all e

-- The lifecycle of a batch.
pub data Edge : BatchStatus → BatchStatus → Type 0 where
  starts : Edge pending running
  completes : Edge running done
  fails : Edge running failed

-- A submitted identifier is new.
abbrev pub IsFresh : Call → Batches → Type 0
IsFresh (submit id refs) q = q id ≡ none
IsFresh _ q = Unit

change_batch-Edge :
    (id : Text) (test : BatchStatus → Bool) (change : BatchState → BatchState) (q q' : Batches)
    → ((b : BatchState) → test b.status ≡ true → Edge b.status (change b).status)
    → change_batch id test change q ≡ ok q'
    → (other : Text) (b b' : BatchState) → q other ≡ some b
    → q' other ≡ some b'
    → (b ≡ b') ⊎ Edge b.status b'.status
unfolding change_batch put_batch
change_batch-Edge id test change q q' moves e other b b' before after = elim (Option-cases (q id)) [
  | inl n ↦ absurd (ground arith)
  | inr (x, found) ↦ elim (Bool-cases (test x.status)) [
    | inl t ↦
        let same : put_batch id (change x) q ≡ q' = ground arith in
        let after' : put_batch id (change x) q other ≡ some b' =
          ap (λ (f : Batches). f other) same ∙ after in
        elim (Bool-cases (eq_text id other)) [
          | inl s ↦
              let here : id ≡ other = eq_text_sound id other s in
              let old : x ≡ b = cc (sym found ∙ (ap q here ∙ before)) in
              let new : change x ≡ b' = ground arith in
              inr (
                subst (λ y. Edge y.status b'.status) old
                  (subst (λ y. Edge x.status y.status) new (moves x t)))
          | inr s ↦ inl (ground arith)
        ]
    | inr t ↦ absurd (ground arith)
  ]
]

from_pending : (s : BatchStatus) → is_pending s ≡ true → Edge s running
from_pending pending t = starts
from_pending running t = cc
from_pending done t = cc
from_pending failed t = cc

from_running : (s : BatchStatus) → is_running s ≡ true → Edge s done × Edge s failed
from_running pending t = cc
from_running running t = (completes, fails)
from_running done t = cc
from_running failed t = cc

-- A call of the queue that succeeds, and that submits no identifier which is there already, leaves
-- each batch as it was or moves it from pending to running, from running to done or from running
-- to failed.
pub call_queue-Edge :
    (call : Call) (q q' : Batches)
    → IsFresh call q
    → call_queue call q ≡ ok q'
    → (other : Text) (b b' : BatchState) → q other ≡ some b
    → q' other ≡ some b'
    → (b ≡ b') ⊎ Edge b.status b'.status
unfolding call_queue put_batch
call_queue-Edge (submit id refs) q q' fresh e other b b' before after =
    let same : put_batch id (new_batch refs) q ≡ q' = cc in
    let after' : put_batch id (new_batch refs) q other ≡ some b' =
      ap (λ (f : Batches). f other) same ∙ after in
    elim (Bool-cases (eq_text id other)) [
      | inl s ↦ absurd (cc (sym fresh ∙ (ap q (eq_text_sound id other s) ∙ before)))
      | inr s ↦ inl (ground arith)
    ]
call_queue-Edge (start id now) q q' fresh e other b b' before after =
    change_batch-Edge id is_pending (begun now) q q' (λ x t. from_pending x.status t) e other b b'
      before after
call_queue-Edge (complete id now manifests) q q' fresh e other b b' before after =
    change_batch-Edge id is_running (completed now manifests) q q'
      (λ x t. (from_running x.status t).0) e other b b' before after
call_queue-Edge (fail id now error) q q' fresh e other b b' before after =
    change_batch-Edge id is_running (gave_up now error) q q' (λ x t. (from_running x.status t).1) e
      other b b' before after
