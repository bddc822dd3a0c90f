-- ===== src/Policy/Loader/Loads.antt =====
-- What a table that was loaded stands for.
use yomotsusaka.Prelude.{
  and_split, ◌∙◌, all, All, ℕ, suc, Text, codes, Bool, true, false, not, Option, none, some, List,
  [], ◌∷◌, ◌≡◌, refl, sym, subst, arith, Result, ok, err, >>=-eq-ok, require, Bool-cases, inl, inr,
}
use yomotsusaka.Vault.{FilePath, Disk}
use yomotsusaka.Boundary.Resolver.{is_blank}
use yomotsusaka.Policy.{PolicyRow, PolicyTable, TableError, build_table, defaults_of, find_row}
use yomotsusaka.Policy.Table.{build_table_default}
use yomotsusaka.Policy.Loader.{
  LoadError, unreadable, no_yaml, empty_file, not_a_mapping, no_section, section_no_mapping,
  no_profiles, or_error, table_of, is_pattern, is_row, validated, non_null, non_empty_list, list_in,
  row_in, row_step, load_rows, load_from_path,
}

or_error-ok :
    {A : Type 0} (cause : LoadError) (o : Option A) (a : A) → or_error cause o ≡ ok a → o ≡ some a
or_error-ok cause none a e = cc
or_error-ok cause (some b) a e = cc

table_of-ok :
    (r : Result TableError PolicyTable) (table : PolicyTable) → table_of r ≡ ok table → r ≡ ok table
table_of-ok (err cause) table e = cc
table_of-ok (ok t) table e = cc

not-true : (b : Bool) → not b ≡ true → b ≡ false
not-true true e = cc
not-true false e = refl

module _ (compiles : Text → Bool) where
  -- A row whose name and production scopes are not blank, and whose pattern is not empty and compiles.
  abbrev pub IsRow : PolicyRow → Type 0
  IsRow row =
      (is_blank row.profile_name ≡ false)
      × All (λ scope. is_blank scope ≡ false) row.production_scopes
      × ((pattern : Text)
          → row.approval_ticket_pattern ≡ some pattern
          → (compiles pattern ≡ true) × ¬ (pattern ≡ []))

  scopes-All :
      (scopes : List Text)
      → all (λ scope. not (is_blank scope)) scopes ≡ true
      → All (λ scope. is_blank scope ≡ false) scopes
  scopes-All [] e = tt
  scopes-All (scope ∷ scopes) e =
      let (first, rest) = and_split _ _ e in (not-true _ first, scopes-All scopes rest)

  is_pattern-compiles :
      (o : Option Text)
      → is_pattern compiles o ≡ true
      → (pattern : Text) → o ≡ some pattern
      → (compiles pattern ≡ true) × ¬ (pattern ≡ [])
  is_pattern-compiles none e pattern same = absurd (cc)
  is_pattern-compiles (some []) e pattern same = absurd (cc)
  is_pattern-compiles (some (c ∷ t)) e pattern same =
      let whole : c ∷ t ≡ pattern = cc in
      (cc (e, whole), λ none_left. let wrong : c ∷ t ≡ [] = whole ∙ none_left in absurd (cc))

  is_row-IsRow : (row : PolicyRow) → is_row compiles row ≡ true → IsRow row
  unfolding is_row
  is_row-IsRow row e =
      let (named, rest) = and_split _ _ e in
      let (scoped, patterned) = and_split _ _ rest in
      (
        not-true _ named,
        scopes-All row.production_scopes scoped,
        is_pattern-compiles row.approval_ticket_pattern patterned,
      )

module _ {Yaml : Type 0} (is_null : Yaml → Bool) (as_mapping : Yaml → Option (Text → Option Yaml))
    (as_list : Yaml → Option (List Yaml)) (row_fields : (Text → Option Yaml) → Option PolicyRow)
    (compiles : Text → Bool) (safe_load : Text → Option Yaml) where
  -- A row that was read from a profile: its fields are the profile's, and it is one that the validators let pass.
  abbrev pub ReadFrom : Yaml → PolicyRow → Type 0
  ReadFrom value row =
      (fields : Text → Option Yaml) × (as_mapping value ≡ some fields)
      × (row_fields fields ≡ some row)
      × IsRow compiles row

  -- The rows of the profiles, in order.
  abbrev pub RowsOf : List Yaml → List PolicyRow → Type 0
  RowsOf [] [] = Unit
  RowsOf [] (row ∷ rows) = ⊥
  RowsOf (value ∷ values) [] = ⊥
  RowsOf (value ∷ values) (row ∷ rows) = ReadFrom value row × RowsOf values rows

  -- The profiles that the file holds.
  abbrev pub HoldsProfiles : FilePath → Disk → List Yaml → Type 0
  HoldsProfiles path d profiles =
      (text : Text) × (loaded section listed : Yaml) × (top fields : Text → Option Yaml) × (d.files
          path
        ≡ some text)
      × (safe_load text ≡ some loaded)
      × (as_mapping loaded ≡ some top)
      × (top (codes "restoration") ≡ some section)
      × (as_mapping section ≡ some fields)
      × (fields (codes "profiles") ≡ some listed)
      × (as_list listed ≡ some profiles)

  non_null-some :
      (o : Option Yaml) (value : Yaml)
      → non_null is_null as_mapping as_list row_fields compiles safe_load o ≡ some value
      → o ≡ some value
  non_null-some none value e = cc
  non_null-some (some v) value e = ground (arith, e)

  list_in-some :
      (o : Option Yaml) (profiles : List Yaml)
      → list_in is_null as_mapping as_list row_fields compiles safe_load o ≡ some profiles
      → (value : Yaml) × (o ≡ some value) × (as_list value ≡ some profiles)
  list_in-some none profiles e = absurd (cc)
  list_in-some (some value) profiles e =
      (value, refl, non_empty_list-some (as_list value) profiles e)
    where
      non_empty_list-some :
          (o : Option (List Yaml)) (profiles : List Yaml)
          → non_empty_list is_null as_mapping as_list row_fields compiles safe_load o
            ≡ some profiles
          → o ≡ some profiles
      non_empty_list-some none profiles e = cc
      non_empty_list-some (some []) profiles e = cc
      non_empty_list-some (some (value ∷ values)) profiles e = e

  validated-some :
      (o : Option PolicyRow) (row : PolicyRow)
      → validated compiles o ≡ some row
      → (o ≡ some row) × (is_row compiles row ≡ true)
  validated-some none row e = absurd (cc)
  validated-some (some r) row e = elim (Bool-cases (is_row compiles r)) [
    | inl good ↦ let same : some r ≡ some row = rw good at e in (same, cc (same, good))
    | inr bad ↦ absurd (let wrong : none ≡ some row = rw bad at e in cc)
  ]

  row_in-ReadFrom :
      (value : Yaml) (o : Option (Text → Option Yaml)) (row : PolicyRow)
      → as_mapping value ≡ o
      → row_in is_null as_mapping as_list row_fields compiles safe_load o ≡ some row
      → ReadFrom value row
  row_in-ReadFrom value none row m e = absurd (cc)
  row_in-ReadFrom value (some fields) row m e =
      let (read, good) = validated-some (row_fields fields) row e in
      (fields, m, read, is_row-IsRow compiles row good)

  row_step-ok :
      (index : ℕ) (o : Option PolicyRow) (rest : Result LoadError (List PolicyRow))
      (rows : List PolicyRow)
      → row_step is_null as_mapping as_list row_fields compiles safe_load index o rest ≡ ok rows
      → (row : PolicyRow) × (later : List PolicyRow) × (o ≡ some row)
        × (rest ≡ ok later)
        × (rows ≡ row ∷ later)
  row_step-ok index none rest rows e = absurd (cc)
  row_step-ok index (some row) (err cause) rows e = absurd (cc)
  row_step-ok index (some row) (ok later) rows e = (row, later, refl, refl, cc)

  load_rows-RowsOf :
      (index : ℕ) (values : List Yaml) (rows : List PolicyRow)
      → load_rows is_null as_mapping as_list row_fields compiles safe_load index values ≡ ok rows
      → RowsOf values rows
  unfolding load_rows
  load_rows-RowsOf index [] [] e = tt
  load_rows-RowsOf index [] (row ∷ rows) e = absurd (cc)
  load_rows-RowsOf index (value ∷ values) rows e =
      let (row, later, read, rest, same) = row_step-ok index _ _ rows e in
      subst (RowsOf (value ∷ values)) (sym same) (
        row_in-ReadFrom value (as_mapping value) row refl read,
        load_rows-RowsOf (suc index) values later rest,
      )

  -- What was built strictly of the rows of profiles.
  abbrev pub BuiltOf : List Yaml → PolicyTable → Type 0
  BuiltOf profiles table =
      RowsOf profiles table.rows_by_name
      × (table.route_unknown_to_default ≡ false)
      × ((row : PolicyRow) × (find_row table.default_name table.rows_by_name ≡ some row)
          × (row.default ≡ true)
          × (defaults_of table.rows_by_name ≡ row ∷ []))

  build_table-BuiltOf :
      (profiles : List Yaml) (rows : List PolicyRow) (table : PolicyTable)
      → RowsOf profiles rows
      → build_table rows false ≡ ok table
      → BuiltOf profiles table
  build_table-BuiltOf profiles rows table read e =
      let (kept, strict, default) = build_table_default rows false table e in
      (
        subst (RowsOf profiles) (sym kept) read,
        strict,
        subst
            (λ rs.
              (row : PolicyRow) × (find_row table.default_name rs ≡ some row)
              × (row.default ≡ true)
              × (defaults_of rs ≡ row ∷ []))
            (sym kept) default,
      )

  -- If a policy file loads, then it can be read, is a mapping with a mapping under `restoration`,
  -- and holds a list under `profiles`. The table's rows are those of the profiles in order, each
  -- with the fields that its mapping gives, with a name and production scopes that are not blank,
  -- and with a pattern, if it has one, that is not empty and compiles; an unknown name is not
  -- routed to the default row; and exactly one row is marked default, which looking up the table's
  -- default name finds.
  pub load_from_path-BuiltOf :
      (path : FilePath) (d : Disk) (table : PolicyTable)
      → load_from_path is_null as_mapping as_list row_fields compiles safe_load path d ≡ ok table
      → (profiles : List Yaml) × HoldsProfiles path d profiles × BuiltOf profiles table
  unfolding load_from_path
  load_from_path-BuiltOf path d table e =
      let section_of = non_null is_null as_mapping as_list row_fields compiles safe_load in
      let profiles_of = list_in is_null as_mapping as_list row_fields compiles safe_load in
      let rows_of = load_rows is_null as_mapping as_list row_fields compiles safe_load in
      let (text, read, e1) = >>=-eq-ok (or_error unreadable (d.files path)) _ e in
      let (loaded, parsed, e2) = >>=-eq-ok (or_error no_yaml (safe_load text)) _ e1 in
      let (_, present, e3) = >>=-eq-ok (require (not (is_null loaded)) empty_file) _ e2 in
      let (top, mapped, e4) = >>=-eq-ok (or_error not_a_mapping (as_mapping loaded)) _ e3 in
      let (section, found, e5) =
        >>=-eq-ok (or_error no_section (section_of (top (codes "restoration")))) _ e4 in
      let (fields, inner, e6) = >>=-eq-ok (or_error section_no_mapping (as_mapping section)) _ e5 in
      let (profiles, listing, e7) =
        >>=-eq-ok (or_error no_profiles (profiles_of (fields (codes "profiles")))) _ e6 in
      let (rows, all_read, e8) = >>=-eq-ok (rows_of 0 profiles) _ e7 in
      let (listed, stands, seen) =
        list_in-some (fields (codes "profiles")) profiles
          (or_error-ok no_profiles _ profiles listing) in
      (
        profiles,
        (
          text,
          loaded,
          section,
          listed,
          top,
          fields,
          or_error-ok unreadable _ text read,
          or_error-ok no_yaml _ loaded parsed,
          or_error-ok not_a_mapping _ top mapped,
          non_null-some _ section (or_error-ok no_section _ section found),
          or_error-ok section_no_mapping _ fields inner,
          stands,
          seen,
        ),
        build_table-BuiltOf profiles rows table (load_rows-RowsOf 0 profiles rows all_read)
            (table_of-ok (build_table rows false) table e8),
      )
