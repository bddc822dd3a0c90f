-- ===== src/Examples/Policies.antt =====
-- A policy file with one profile, and the theorem on loading it.
use yomotsusaka.Prelude.{
  Text, codes, eq_text, Bool, true, false, Option, none, some, List, [], ◌∷◌, ◌≡◌, refl, ok,
  if◌then◌else◌,
}
use yomotsusaka.Vault.{FilePath, Disk}
use yomotsusaka.Boundary.Resolver.{is_blank}
use yomotsusaka.Policy.{PolicyRow, PolicyTable, default_local_row, build_table}
use yomotsusaka.Policy.Loader.{is_row, load_rows, load_from_path}
use yomotsusaka.Policy.Loader.Loads.{HoldsProfiles, BuiltOf, load_from_path-BuiltOf}

-- A small part of YAML: mappings with one key, lists of one value, and the fields of a row.
data Value : Type 0 where
  keyed : Text → Value → Value
  item : Value → Value
  row_of : PolicyRow → Value

abbrev is_null : Value → Bool
is_null value = false

abbrev as_mapping : Value → Option (Text → Option Value)
as_mapping (keyed key value) = some (λ k. if eq_text k key then some value else none)
as_mapping (item value) = none
as_mapping (row_of row) = some (λ k. some (row_of row))

abbrev as_list : Value → Option (List Value)
as_list (item value) = some (value ∷ [])
as_list (keyed key value) = none
as_list (row_of row) = none

abbrev row_in_value : Option Value → Option PolicyRow
row_in_value (some (row_of row)) = some row
row_in_value _ = none

abbrev row_fields : (Text → Option Value) → Option PolicyRow
row_fields fields = row_in_value (fields (codes "profile_name"))

abbrev compiles : Text → Bool
compiles t = true

abbrev policy_file : Value
policy_file =
    keyed (codes "restoration") (keyed (codes "profiles") (item (row_of default_local_row)))

abbrev safe_load : Text → Option Value
safe_load t = some policy_file

abbrev policy_path : FilePath
policy_path = codes "policy.yaml" ∷ []

abbrev policy_disk : Disk
policy_disk = record { files = λ path. some (codes "restoration:"); refuses = λ path. false }

abbrev loaded_table : PolicyTable
loaded_table = record {
  rows_by_name = default_local_row ∷ [];
  default_name = codes "_default_local";
  route_unknown_to_default = false;
}

policy_loaded :
    load_from_path is_null as_mapping as_list row_fields compiles safe_load policy_path policy_disk
    ≡ ok loaded_table
unfolding load_from_path load_rows is_row is_blank build_table eq_text
policy_loaded = refl

load_from_path-BuiltOf_example :
    (profiles : List Value) × HoldsProfiles is_null as_mapping as_list row_fields compiles safe_load
      policy_path policy_disk profiles
    × BuiltOf is_null as_mapping as_list row_fields compiles safe_load profiles loaded_table
load_from_path-BuiltOf_example =
    load_from_path-BuiltOf is_null as_mapping as_list row_fields compiles safe_load policy_path
      policy_disk loaded_table policy_loaded
