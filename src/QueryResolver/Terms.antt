-- ===== src/QueryResolver/Terms.antt =====
-- The translated terms: each key that was met, once.
use yomotsusaka.Prelude.{
  Text, is_member, List, [], ◌∷◌, ◌++◌, ◌≡◌, ◌⊎◌, ◌↔◌, inl, inr, sym, Bool-cases,
}
use yomotsusaka.Validator.Spec.{Has, is_member_iff}
use yomotsusaka.QueryResolver.{add_term}

-- The keys of the terms so far and of those to come, each once.
unfoldable pub collect_terms : List Text → List Text → List Text
collect_terms terms [] = terms
collect_terms terms (key ∷ keys) = collect_terms (add_term key terms) keys

-- No text stands twice in the list.
abbrev pub IsUnique : List Text → Type 0
IsUnique [] = Unit
IsUnique (t ∷ ts) = ¬ Has t ts × IsUnique ts

pub Has-append : (t : Text) (ts us : List Text) → Has t (ts ++ us) → Has t ts ⊎ Has t us
Has-append t [] us h = inr h
Has-append t (s ∷ ts) us (inl e) = inl (inl e)
Has-append t (s ∷ ts) us (inr h) = elim (Has-append t ts us h) [
  | inl k ↦ inl (inr k)
  | inr k ↦ inr k
]

pub IsUnique-snoc :
    (key : Text) (terms : List Text)
    → ¬ Has key terms
    → IsUnique terms
    → IsUnique (terms ++ key ∷ [])
IsUnique-snoc key [] n h = (λ k. k, tt)
IsUnique-snoc key (t ∷ terms) n h = (
  λ k. elim (Has-append t terms (key ∷ []) k) [
    | inl there ↦ h.0 there
    | inr (inl e) ↦ n (inl (sym e))
    | inr (inr none_left) ↦ none_left
  ],
  IsUnique-snoc key terms (λ k. n (inr k)) h.1,
)

add_term-IsUnique :
    (key : Text) (terms : List Text) → IsUnique terms → IsUnique (add_term key terms)
add_term-IsUnique key terms h = elim (Bool-cases (is_member key terms)) [
  | inl e ↦ rw e h
  | inr e ↦ rw e (IsUnique-snoc key terms (λ k. absurd (cc (e, (is_member_iff key terms).1 k))) h)
]

pub collect_terms-IsUnique :
    (terms keys : List Text) → IsUnique terms → IsUnique (collect_terms terms keys)
unfolding collect_terms
collect_terms-IsUnique terms [] h = h
collect_terms-IsUnique terms (key ∷ keys) h =
    collect_terms-IsUnique (add_term key terms) keys (add_term-IsUnique key terms h)

pub Has-append_left : (t : Text) (ts us : List Text) → Has t ts → Has t (ts ++ us)
Has-append_left t [] us h = absurd h
Has-append_left t (s ∷ ts) us (inl e) = inl e
Has-append_left t (s ∷ ts) us (inr h) = inr (Has-append_left t ts us h)

pub Has-append_right : (t : Text) (ts us : List Text) → Has t us → Has t (ts ++ us)
Has-append_right t [] us h = h
Has-append_right t (s ∷ ts) us h = inr (Has-append_right t ts us h)

add_term-Has :
    (t key : Text) (terms : List Text) → Has t (add_term key terms) ↔ ((t ≡ key) ⊎ Has t terms)
add_term-Has t key terms = elim (Bool-cases (is_member key terms)) [
  | inl e ↦
      rw e
        (λ h. inr h, λ h. elim h [ inl same ↦ rw same ((is_member_iff key terms).0 e) | inr k ↦ k ])
  | inr e ↦ rw e (
    λ h. elim (Has-append t terms (key ∷ []) h) [
      | inl k ↦ inr k
      | inr (inl same) ↦ inl same
      | inr (inr none_left) ↦ absurd none_left
    ],
    λ h. elim h [
      | inl same ↦ Has-append_right t terms (key ∷ []) (inl same)
      | inr k ↦ Has-append_left t terms (key ∷ []) k
    ],
  )
]

pub collect_terms-Has :
    (t : Text) (terms keys : List Text)
    → Has t (collect_terms terms keys) ↔ (Has t terms ⊎ Has t keys)
unfolding collect_terms
collect_terms-Has t terms [] = (λ h. inl h, λ h. elim h [ inl k ↦ k | inr k ↦ absurd k ])
collect_terms-Has t terms (key ∷ keys) =
    let (to, from) = collect_terms-Has t (add_term key terms) keys in
    let (split, join) = add_term-Has t key terms in
    (
      λ h. elim (to h) [
        | inl k ↦ elim (split k) [ inl same ↦ inr (inl same) | inr j ↦ inl j ]
        | inr k ↦ inr (inr k)
      ],
      λ h. elim h [
        | inl k ↦ from (inl (join (inr k)))
        | inr (inl same) ↦ from (inl (join (inl same)))
        | inr (inr k) ↦ from (inr k)
      ],
    )
