-- ===== src/Policy/Table.antt =====
-- What the constructor of a policy table ensures.
use yomotsusaka.Prelude.{
  Text, eq_text, eq_text_refl, eq_text_sound, Bool, true, not, none, some, List, [], ◌∷◌, ◌≡◌, refl,
  sym, ap, ◌∙◌, ok, require, >>=-eq-ok, Bool-cases, Option-cases, inl, inr, arith, if◌then◌else◌,
}
use yomotsusaka.Policy.{
  PolicyRow, PolicyTable, find_row, index_rows, defaults_of, with_default, build_table, is_nil,
  no_rows,
}

pub find_row-name :
    (n : Text) (rows : List PolicyRow) (y : PolicyRow)
    → find_row n rows ≡ some y
    → n ≡ y.profile_name
unfolding find_row
find_row-name n [] y h = absurd (cc)
find_row-name n (x ∷ xs) y h = elim (Bool-cases (eq_text n x.profile_name)) [
  | inl e ↦
      let same : x ≡ y = ground arith in
      eq_text_sound n _ e ∙ ap (λ (r : PolicyRow). r.profile_name) same
  | inr e ↦ find_row-name n xs y (ground arith)
]

find_row-cons :
    (n : Text) (x : PolicyRow) (xs : List PolicyRow)
    → find_row n (x ∷ xs) ≡ (if eq_text n x.profile_name then some x else find_row n xs)
unfolding find_row
find_row-cons n x xs = refl

index_rows-cons :
    (seen : List PolicyRow) (x : PolicyRow) (xs : List PolicyRow)
    → index_rows seen (x ∷ xs) ≡ ok tt
    → (find_row x.profile_name seen ≡ none) × (index_rows (x ∷ seen) xs ≡ ok tt)
unfolding index_rows
index_rows-cons seen x xs h = elim (Option-cases (find_row x.profile_name seen)) [
  | inl e ↦ (e, ground arith)
  | inr (y, e) ↦ absurd (ground arith)
]

-- No row is called like one that was there before it.
index_rows_fresh :
    (rows seen : List PolicyRow) (n : Text) (y : PolicyRow)
    → index_rows seen rows ≡ ok tt
    → find_row n rows ≡ some y
    → find_row y.profile_name seen ≡ none
index_rows_fresh [] seen n y h f = absurd (unfold find_row in cc)
index_rows_fresh (x ∷ xs) seen n y h f =
    let (new, rest) = index_rows-cons seen x xs h in
    let later = λ (g : find_row n xs ≡ some y). index_rows_fresh xs (x ∷ seen) n y rest g in
    elim (Bool-cases (eq_text n x.profile_name)) [
      | inl e ↦ let same : x ≡ y = ground (arith, find_row-cons n x xs) in rw (← same) new
      | inr e ↦
          let behind = later (ground (arith, find_row-cons n x xs)) in
          ground (arith, find_row-cons y.profile_name x seen)
    ]

-- Under the name of the only default row stands that row.
find_row-default :
    (rows seen : List PolicyRow) (row : PolicyRow)
    → index_rows seen rows ≡ ok tt
    → defaults_of rows ≡ row ∷ []
    → (find_row row.profile_name rows ≡ some row) × (row.default ≡ true)
find_row-default [] seen row h d = absurd (cc)
find_row-default (x ∷ xs) seen row h d =
    let (new, rest) = index_rows-cons seen x xs h in
    let later = λ (e : defaults_of xs ≡ row ∷ []). find_row-default xs (x ∷ seen) row rest e in
    elim (Bool-cases x.default) [
      | inl e ↦
          let same : x ≡ row = ground arith in
          (
            ground (arith, find_row-cons row.profile_name x xs, eq_text_refl row.profile_name),
            ground arith,
          )
      | inr e ↦
          let (found, marked) = later (ground arith) in
          let fresh = index_rows_fresh xs (x ∷ seen) row.profile_name row rest found in
          (
            ground
                (arith, find_row-cons row.profile_name x xs, find_row-cons row.profile_name x seen),
            marked,
          )
    ]

with_default_ok :
    (rows : List PolicyRow) (route : Bool) (ds : List PolicyRow) (table : PolicyTable)
    → with_default rows route ds ≡ ok table
    → (row : PolicyRow) × (ds ≡ row ∷ [])
      × (record {
        rows_by_name = rows;
        default_name = row.profile_name;
        route_unknown_to_default = route;
      }
          ≡ table)
with_default_ok rows route [] table h = absurd (cc)
with_default_ok rows route (row ∷ []) table h = (row, refl, cc)
with_default_ok rows route (_ ∷ _ ∷ _) table h = absurd (cc)

module _ (rows : List PolicyRow) (route : Bool) (table : PolicyTable)
    (built : build_table rows route ≡ ok table) where
  -- A table that the constructor accepts keeps its rows and its flag, exactly one row is marked
  -- default, and looking up the table's default name finds that row.
  pub build_table_default :
      (table.rows_by_name ≡ rows)
      × (table.route_unknown_to_default ≡ route)
      × ((row : PolicyRow) × (find_row table.default_name rows ≡ some row)
          × (row.default ≡ true)
          × (defaults_of rows ≡ row ∷ []))
  unfolding build_table
  build_table_default =
      let (_, _, h1) = >>=-eq-ok (require (not (is_nil rows)) no_rows) _ built in
      let (_, indexed, h2) = >>=-eq-ok (index_rows [] rows) _ h1 in
      let (row, only, same) = with_default_ok rows route (defaults_of rows) table h2 in
      let (found, marked) = find_row-default rows [] row indexed only in
      (
        ap (λ (t : PolicyTable). t.rows_by_name) (sym same),
        ap (λ (t : PolicyTable). t.route_unknown_to_default) (sym same),
        (row, rw (← same) found, marked, only),
      )
