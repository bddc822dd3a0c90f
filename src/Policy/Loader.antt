-- ===== src/Policy/Loader.antt =====
-- `RestorationPolicyTable.load_from_path` and the validators of a row (src/yomotsusaka/policy.py). What
-- `yaml.safe_load` makes of a text is given by the section's parameters: a value is null or not, and
-- may be seen as a mapping or as a list; `row_fields` is what pydantic reads from a mapping into the typed
-- fields of a row, before the validators; `compiles` tells whether `re.compile` accepts a pattern.
pub mod Loads
use yomotsusaka.Prelude.{
  ℕ, suc, Text, codes, Bool, true, false, not, Option, none, some, List, [], ◌∷◌, all, ◌&&◌, Result,
  ok, err, ◌>>=◌, ◌>>◌, require, if◌then◌else◌,
}
use yomotsusaka.Vault.{FilePath, Disk}
use yomotsusaka.Boundary.Resolver.{is_blank}
use yomotsusaka.Policy.{PolicyRow, PolicyTable, TableError, build_table}

pub data LoadError : Type 0 where
  unreadable no_yaml empty_file not_a_mapping no_section section_no_mapping no_profiles : LoadError
  bad_profile : ℕ → LoadError
  bad_table : TableError → LoadError

-- A value that is asked for, or the error.
abbrev pub or_error {ℓ} : {A : Type ℓ} → LoadError → Option A → Result LoadError A
or_error cause none = err cause
or_error cause (some value) = ok value

abbrev pub table_of : Result TableError PolicyTable → Result LoadError PolicyTable
table_of (err cause) = err (bad_table cause)
table_of (ok table) = ok table

abbrev pub add_row :
    PolicyRow → Result LoadError (List PolicyRow) → Result LoadError (List PolicyRow)
add_row row (err cause) = err cause
add_row row (ok rows) = ok (row ∷ rows)

module _ (compiles : Text → Bool) where
  -- `_approval_ticket_pattern_compiles`
  abbrev pub is_pattern : Option Text → Bool
  is_pattern none = true
  is_pattern (some []) = false
  is_pattern (some (c ∷ t)) = compiles (c ∷ t)

  -- The validators of `RestorationPolicyRow`
  unfoldable pub is_row : PolicyRow → Bool
  unfolding is_blank
  is_row row =
      not (is_blank row.profile_name)
      && (all (λ scope. not (is_blank scope)) row.production_scopes
          && is_pattern row.approval_ticket_pattern)

  abbrev pub validated : Option PolicyRow → Option PolicyRow
  validated none = none
  validated (some row) = if is_row row then some row else none

module _ {Yaml : Type 0} (is_null : Yaml → Bool) (as_mapping : Yaml → Option (Text → Option Yaml))
    (as_list : Yaml → Option (List Yaml)) (row_fields : (Text → Option Yaml) → Option PolicyRow)
    (compiles : Text → Bool) (safe_load : Text → Option Yaml) where
  -- `section.get(...)`, where null counts as missing
  abbrev pub non_null : Option Yaml → Option Yaml
  non_null none = none
  non_null (some value) = if is_null value then none else some value

  abbrev pub non_empty_list : Option (List Yaml) → Option (List Yaml)
  non_empty_list (some (value ∷ values)) = some (value ∷ values)
  non_empty_list _ = none

  abbrev pub list_in : Option Yaml → Option (List Yaml)
  list_in none = none
  list_in (some value) = non_empty_list (as_list value)

  abbrev pub row_in : Option (Text → Option Yaml) → Option PolicyRow
  row_in none = none
  row_in (some fields) = validated compiles (row_fields fields)

  abbrev pub row_step :
      ℕ → Option PolicyRow → Result LoadError (List PolicyRow) → Result LoadError (List PolicyRow)
  row_step index none rest = err (bad_profile index)
  row_step index (some row) rest = add_row row rest

  -- The loop over the profiles.
  unfoldable pub load_rows : ℕ → List Yaml → Result LoadError (List PolicyRow)
  unfolding is_row
  load_rows index [] = ok []
  load_rows index (value ∷ values) =
      row_step index (row_in (as_mapping value)) (load_rows (suc index) values)

  -- `load_from_path`
  unfoldable pub load_from_path : FilePath → Disk → Result LoadError PolicyTable
  unfolding load_rows build_table
  load_from_path path d = do
    text ← or_error unreadable (d.files path)
    loaded ← or_error no_yaml (safe_load text)
    require (not (is_null loaded)) empty_file
    top ← or_error not_a_mapping (as_mapping loaded)
    section ← or_error no_section (non_null (top (codes "restoration")))
    fields ← or_error section_no_mapping (as_mapping section)
    profiles ← or_error no_profiles (list_in (fields (codes "profiles")))
    rows ← load_rows 0 profiles
    table_of (build_table rows false)
