-- ===== src/QueryResolver/Translation.antt =====
-- What a translation takes out of a query and what it leaves.
use yomotsusaka.Prelude.{
  ℕ, zero, suc, ◌≤◌, ◌+◌, Text, starts_with, starts_with_elim, true, false, none, some, List, [],
  ◌∷◌, ◌++◌, length, length-append, drop, drop-length, ◌≡◌, ◌≢◌, ◌↔◌, inl, inr, refl, sym, ap, ◌∙◌,
  arith, Option-cases, append_assoc, append-nil,
}
use yomotsusaka.Validator.Spec.{Has}
use yomotsusaka.QueryResolver.{
  Registry, ResolvedQuery, find_key, sort_values, find_match, add_term, walk, untranslated,
  translate,
}
use yomotsusaka.QueryResolver.Matching.{
  sort_values-Descending, sort_values-Has, Has-sort_values, find_match-none, find_match-some,
  IsFirst,
}
use yomotsusaka.QueryResolver.Terms.{
  collect_terms, IsUnique, collect_terms-IsUnique, collect_terms-Has,
}

-- No raw value of the map that is longer than `raw` stands at the start of the text.
abbrev pub IsLongest : Registry → Text → Text → Type 0
IsLongest entries raw query =
    (other key : Text)
    → find_key other entries ≡ some key
    → starts_with other query ≡ true
    → length other ≤ length raw

-- The keys met from the left and what is left over, of a query that is read from the left.
pub data Walk (entries : Registry) : Text → List Text → Text → Type 0 where
  stop : Walk entries [] [] []
  hit :
      {query raw key rest residual : Text} {keys : List Text}
      → raw ≢ []
      → find_key raw entries ≡ some key
      → query ≡ raw ++ rest
      → IsLongest entries raw query
      → Walk entries rest keys residual
      → Walk entries query (key ∷ keys) residual
  miss :
      {c : ℕ} {rest residual : Text} {keys : List Text}
      → ((raw key : Text)
          → raw ≢ []
          → find_key raw entries ≡ some key
          → starts_with raw (c ∷ rest) ≡ false)
      → Walk entries rest keys residual
      → Walk entries (c ∷ rest) keys (c ∷ residual)

-- Where a walk from here ends.
abbrev Ends : Registry → ℕ → Text → ResolvedQuery → Type 0
Ends entries fuel query found =
    (keys : List Text) × (residual : Text) × Walk entries query keys residual
    × (walk entries fuel query found
        ≡ some (record {
          translated_terms = collect_terms found.translated_terms keys;
          residual = found.residual ++ residual;
        }))

some_length : (raw : Text) → raw ≢ [] → 1 ≤ length raw
some_length [] ne = absurd (ne refl)
some_length (c ∷ raw) ne = omega arith

module _ (entries : Registry) (fuel c : ℕ) (rest : Text) (found : ResolvedQuery) where
  walk_miss :
      find_match (sort_values entries) (c ∷ rest) ≡ none
      → Ends entries fuel rest (record found { residual = found.residual ++ c ∷ [] })
      → Ends entries (suc fuel) (c ∷ rest) found
  unfolding walk
  walk_miss e (keys, residual, w, ends) = (
    keys,
    c ∷ residual,
    miss (λ raw key ne f. find_match-none _ (c ∷ rest) raw e (sort_values-Has raw key entries f) ne)
        w,
    rw (e, walk) (ends ∙ rw append_assoc refl),
  )

  walk_hit :
      (raw key tail : Text)
      → find_match (sort_values entries) (c ∷ rest) ≡ some raw
      → find_key raw entries ≡ some key
      → c ∷ rest ≡ raw ++ tail
      → IsFirst (sort_values entries) (c ∷ rest) raw
      → Ends entries fuel tail
          (record found { translated_terms = add_term key found.translated_terms })
      → Ends entries (suc fuel) (c ∷ rest) found
  unfolding walk collect_terms
  walk_hit raw key tail e there split first (keys, residual, w, ends) =
      let left : drop (length raw) (c ∷ rest) ≡ tail =
        ap (drop (length raw)) split ∙ drop-length raw tail in
      (
        key ∷ keys,
        residual,
        hit first.not_empty there split
            (λ other k f s. first.longest other (sort_values-Has other k entries f) s) w,
        rw (e, walk, there, left) ends,
      )

walk-Ends :
    (entries : Registry) (fuel : ℕ) (query : Text) (found : ResolvedQuery)
    → length query ≤ fuel
    → Ends entries fuel query found
unfolding walk collect_terms
walk-Ends entries fuel [] found h = ([], [], stop, rw append-nil refl)
walk-Ends entries zero (c ∷ rest) found h = absurd (omega arith)
walk-Ends entries (suc fuel) (c ∷ rest) found h =
    elim (Option-cases (find_match (sort_values entries) (c ∷ rest))) [
      | inl e ↦ walk_miss entries fuel c rest found e (walk-Ends entries fuel rest _ (omega arith))
      | inr (raw, e) ↦
          let first = find_match-some _ (c ∷ rest) raw (sort_values-Descending entries) e in
          let (key, there) = Has-sort_values raw entries first.in_list in
          let (tail, split) = starts_with_elim raw (c ∷ rest) first.here in
          let shortened : length raw + length tail ≡ suc (length rest) =
            sym (length-append raw tail) ∙ sym (ap length split) in
          walk_hit entries fuel c rest found raw key tail e there split first (
            walk-Ends entries fuel tail _
              (omega (arith, shortened, some_length raw first.not_empty)))
    ]

no_key : (raw key : Text) → ¬ (find_key raw [] ≡ some key)
unfolding find_key
no_key raw key f = cc

all_miss : (query : Text) → Walk [] query [] query
all_miss [] = stop
all_miss (c ∷ query) = miss (λ raw key ne f. absurd (no_key raw key f)) (all_miss query)

translated :
    (entries : Registry) (query : Text)
    → (keys : List Text) × (residual : Text) × Walk entries query keys residual
      × (translate entries query
          ≡ some (record { translated_terms = collect_terms [] keys; residual = residual }))
unfolding translate collect_terms
translated entries [] = ([], [], stop, refl)
translated [] (c ∷ query) = ([], c ∷ query, all_miss (c ∷ query), refl)
translated (entry ∷ entries) (c ∷ query) =
    walk-Ends (entry ∷ entries) (length (c ∷ query)) (c ∷ query) (untranslated []) (omega arith)

-- Every translation of a query ends with a result. The query is then read from the left as
-- registered raw values, each the longest that stands there, and single characters at which no
-- registered value stands: the characters make up the residual, and the terms are the keys of the
-- values, each once.
pub translate-Walk :
    (entries : Registry) (query : Text)
    → (keys : List Text) × (terms : List Text) × (residual : Text) × (translate entries query
        ≡ some (record { translated_terms = terms; residual = residual }))
      × Walk entries query keys residual
      × IsUnique terms
      × ((t : Text) → Has t terms ↔ Has t keys)
translate-Walk entries query =
    let (keys, residual, w, e) = translated entries query in
    (
      keys,
      collect_terms [] keys,
      residual,
      e,
      w,
      collect_terms-IsUnique [] keys tt,
      λ t. (
        λ h. elim ((collect_terms-Has t [] keys).0 h) [ inl k ↦ absurd k | inr k ↦ k ],
        λ h. (collect_terms-Has t [] keys).1 (inr h),
      ),
    )
