-- ===== src/QueryResolver/Matching.antt =====
-- The sorting of the raw values and the search for the one to translate.
use yomotsusaka.Prelude.{
  ℕ, ◌≤◌, Text, eq_text, eq_text_refl, eq_text_sound, starts_with, true, false, none, some, List,
  [], ◌∷◌, length, leb, ◌≡◌, ◌≢◌, ◌⊎◌, inl, inr, refl, sym, subst, All, arith, Bool-cases,
}
use yomotsusaka.Validator.Spec.{Has}
use yomotsusaka.QueryResolver.{Registry, find_key, insert_value, sort_values, find_match}

-- The raw values longest first.
abbrev pub Descending : List Text → Type 0
Descending [] = Unit
Descending (raw ∷ raws) = All (λ r. length r ≤ length raw) raws × Descending raws

insert_value-All :
    (P : Text → Type 0) (raw : Text) (raws : List Text)
    → P raw
    → All P raws
    → All P (insert_value raw raws)
unfolding insert_value
insert_value-All P raw [] h k = (h, tt)
insert_value-All P raw (r ∷ raws) h k = ground (arith, insert_value-All P raw raws h k.1)

shorter :
    (m n : ℕ) (raws : List Text)
    → m ≤ n
    → All (λ r. length r ≤ m) raws
    → All (λ r. length r ≤ n) raws
shorter m n [] h k = tt
shorter m n (r ∷ raws) h k = (omega (arith, k.0), shorter m n raws h k.1)

insert_value-Descending :
    (raw : Text) (raws : List Text) → Descending raws → Descending (insert_value raw raws)
unfolding insert_value
insert_value-Descending raw [] h = (tt, tt)
insert_value-Descending raw (r ∷ raws) h = elim (Bool-cases (leb (length r) (length raw))) [
  | inl e ↦ rw e ((ground arith, shorter (length r) (length raw) raws (ground arith) h.0), h)
  | inr e ↦ rw e (
    insert_value-All (λ s. length s ≤ length r) raw raws (ground arith) h.0,
    insert_value-Descending raw raws h.1,
  )
]

pub sort_values-Descending : (entries : Registry) → Descending (sort_values entries)
unfolding sort_values
sort_values-Descending [] = tt
sort_values-Descending ((raw, key) ∷ entries) =
    insert_value-Descending raw (sort_values entries) (sort_values-Descending entries)

insert_value-Has :
    (t raw : Text) (raws : List Text) → (t ≡ raw) ⊎ Has t raws → Has t (insert_value raw raws)
unfolding insert_value
insert_value-Has t raw [] h = h
insert_value-Has t raw (r ∷ raws) h = elim (Bool-cases (leb (length r) (length raw))) [
  | inl e ↦ rw e h
  | inr e ↦ rw e (elim h [
    | inl k ↦ inr (insert_value-Has t raw raws (inl k))
    | inr (inl k) ↦ inl k
    | inr (inr k) ↦ inr (insert_value-Has t raw raws (inr k))
  ])
]

Has-insert_value :
    (t raw : Text) (raws : List Text) → Has t (insert_value raw raws) → (t ≡ raw) ⊎ Has t raws
unfolding insert_value
Has-insert_value t raw [] h = h
Has-insert_value t raw (r ∷ raws) h = elim (Bool-cases (leb (length r) (length raw))) [
  | inl e ↦ rw e at h
  | inr e ↦ elim (rw e at h) [
    | inl k ↦ inr (inl k)
    | inr k ↦ elim (Has-insert_value t raw raws k) [ inl j ↦ inl j | inr j ↦ inr (inr j) ]
  ]
]

-- The sorted raw values are those of the map.
pub sort_values-Has :
    (t key : Text) (entries : Registry)
    → find_key t entries ≡ some key
    → Has t (sort_values entries)
unfolding sort_values find_key
sort_values-Has t key [] h = cc
sort_values-Has t key ((raw, k) ∷ entries) h = elim (Bool-cases (eq_text raw t)) [
  | inl e ↦ insert_value-Has t raw (sort_values entries) (inl (sym (eq_text_sound raw t e)))
  | inr e ↦
      insert_value-Has t raw (sort_values entries)
        (inr (sort_values-Has t key entries (rw (e, find_key) at h)))
]

pub Has-sort_values :
    (t : Text) (entries : Registry)
    → Has t (sort_values entries)
    → (key : Text) × (find_key t entries ≡ some key)
unfolding sort_values find_key
Has-sort_values t [] h = absurd h
Has-sort_values t ((raw, k) ∷ entries) h = elim (Bool-cases (eq_text raw t)) [
  | inl e ↦ (k, rw e refl)
  | inr e ↦ elim (Has-insert_value t raw (sort_values entries) h) [
    | inl j ↦ absurd (let same : eq_text raw t ≡ true = rw j (eq_text_refl raw) in cc)
    | inr j ↦ let (key, found) = Has-sort_values t entries j in (key, rw e found)
  ]
]

All-Has : (P : Text → Type 0) (t : Text) (ts : List Text) → All P ts → Has t ts → P t
All-Has P t [] h k = absurd k
All-Has P t (s ∷ ts) h (inl e) = subst P (sym e) h.0
All-Has P t (s ∷ ts) h (inr k) = All-Has P t ts h.1 k

pub find_match-none :
    (raws : List Text) (rest t : Text)
    → find_match raws rest ≡ none
    → Has t raws
    → t ≢ []
    → starts_with t rest ≡ false
unfolding find_match
find_match-none [] rest t h k ne = absurd k
find_match-none ([] ∷ raws) rest t h (inl e) ne = absurd (ne e)
find_match-none ([] ∷ raws) rest t h (inr k) ne = find_match-none raws rest t h k ne
find_match-none ((c ∷ raw) ∷ raws) rest t h k ne = elim (Bool-cases (starts_with (c ∷ raw) rest)) [
  | inl e ↦ absurd (let hit : some (c ∷ raw) ≡ none = rw (e, find_match) at h in cc)
  | inr e ↦ elim k [
    | inl same ↦ rw same e
    | inr later ↦ find_match-none raws rest t (rw (e, find_match) at h) later ne
  ]
]

-- A raw value that stands at the start of the text, and is no shorter than any other that does.
pub record IsFirst (raws : List Text) (rest raw : Text) : Type 0 where
  pub in_list : Has raw raws
  pub not_empty : raw ≢ []
  pub here : starts_with raw rest ≡ true
  pub longest :
      (other : Text) → Has other raws → starts_with other rest ≡ true → length other ≤ length raw

pub find_match-some :
    (raws : List Text) (rest raw : Text)
    → Descending raws
    → find_match raws rest ≡ some raw
    → IsFirst raws rest raw
unfolding find_match
find_match-some [] rest raw d h = cc
find_match-some ([] ∷ raws) rest raw d h =
    let first = find_match-some raws rest raw d.1 h in
    record {
      in_list = inr first.in_list;
      not_empty = first.not_empty;
      here = first.here;
      longest = λ other k s. elim k [
        | inl e ↦ rw e (omega arith)
        | inr later ↦ first.longest other later s
      ];
    }
find_match-some ((c ∷ t) ∷ raws) rest raw d h = elim (Bool-cases (starts_with (c ∷ t) rest)) [
  | inl e ↦
      let same : c ∷ t ≡ raw =
        (let hit : some (c ∷ t) ≡ some raw = rw (e, find_match) at h in cc) in
      record {
        in_list = inl (sym same);
        not_empty = λ empty. cc;
        here = rw (← same) e;
        longest = λ other k s. rw (← same) (elim k [
          | inl f ↦ rw f (omega arith)
          | inr later ↦ All-Has (λ r. length r ≤ length (c ∷ t)) other raws d.0 later
        ]);
      }
  | inr e ↦
      let first = find_match-some raws rest raw d.1 (rw (e, find_match) at h) in
      record {
        in_list = inr first.in_list;
        not_empty = first.not_empty;
        here = first.here;
        longest = λ other k s. elim k [
          | inl f ↦ absurd (let no_hit : starts_with other rest ≡ false = rw f e in cc)
          | inr later ↦ first.longest other later s
        ];
      }
]
