-- ===== src/Policy.antt =====
-- The restoration policy table (src/yomotsusaka/policy.py). `fullmatch pattern text` stands for
-- `re.fullmatch(pattern, text) is not None`. `Loader` reads a table from a file.
pub mod Loader
pub mod Table
pub mod Verdicts
pub mod Default
use yomotsusaka.Prelude.{
  ℕ, suc, Text, codes, eq_text, is_member, Bool, true, false, not, Option, none, some, List, [],
  ◌∷◌, length, keep, ltb, ◌&&◌, ◌||◌, Result, ok, err, ◌>>=◌, ◌>>◌, require, if◌then◌else◌,
}

pub record PolicyRow : Type 0 where
  pub profile_name : Text
  pub production_scopes : List Text
  pub require_authorization_decision : Bool
  pub approval_ticket_pattern : Option Text
  pub default : Bool

-- The four reserved fields of a restoration request. The only decision there is is "accept".
pub record PolicyRequest : Type 0 where
  pub policy_profile : Option Text
  pub production_scope : Option Text
  pub authorization_decision : Option (Unit {0})
  pub approval_ticket : Option Text

pub data DenyReason : Type 0 where
  unknown_profile : Text → DenyReason
  scope_not_permitted : Option Text → Text → DenyReason
  authorization_missing ticket_missing : Text → DenyReason
  ticket_too_long : DenyReason
  ticket_mismatch : Text → DenyReason

pub data Verdict : Type 0 where
  permit deny : Verdict

pub record PolicyDecision : Type 0 where
  pub verdict : Verdict
  pub matched_profile : Text
  pub deny_reason : Option DenyReason

-- `_PRODUCTION_SCOPE_WILDCARD`, `_APPROVAL_TICKET_MAX_LEN`
abbrev pub wildcard : Text
wildcard = codes "*"

abbrev pub approval_ticket_max_len : ℕ
approval_ticket_max_len = 256

abbrev pub is_nil {ℓ} : {A : Type ℓ} → List A → Bool
is_nil [] = true
is_nil (_ ∷ _) = false

abbrev listed : List Text → Option Text → Bool
listed scopes none = is_nil scopes
listed scopes (some s) = is_member s scopes

-- `permits_production_scope`
unfoldable pub permits_production_scope : PolicyRow → Option Text → Bool
permits_production_scope row value =
    if is_member wildcard row.production_scopes then true else listed row.production_scopes value

-- `_rows_by_name`, whose keys are the rows' names.
pub record PolicyTable : Type 0 where
  pub rows_by_name : List PolicyRow
  pub default_name : Text
  pub route_unknown_to_default : Bool

pub data TableError : Type 0 where
  no_rows no_default several_defaults : TableError
  duplicate_profile : Text → TableError

-- `self._rows_by_name.get(name)`
unfoldable pub find_row : Text → List PolicyRow → Option PolicyRow
find_row name [] = none
find_row name (row ∷ rows) =
    let rest = find_row name rows in if eq_text name row.profile_name then some row else rest

-- The loop that fills `by_name`: the rows that are there already come first.
unfoldable pub index_rows : List PolicyRow → List PolicyRow → Result TableError (Unit {0})
unfolding find_row
index_rows seen [] = ok tt
index_rows seen (row ∷ rows) =
    let rest = index_rows (row ∷ seen) rows in
    elim (find_row row.profile_name seen) [
      | some _ ↦ err (duplicate_profile row.profile_name)
      | none ↦ rest
    ]

abbrev pub defaults_of : List PolicyRow → List PolicyRow
defaults_of = keep (λ row. row.default)

abbrev with_default : List PolicyRow → Bool → List PolicyRow → Result TableError PolicyTable
with_default rows route [] = err no_default
with_default rows route (row ∷ []) = ok (record {
  rows_by_name = rows;
  default_name = row.profile_name;
  route_unknown_to_default = route;
})
with_default rows route (_ ∷ _ ∷ _) = err several_defaults

-- `RestorationPolicyTable.__init__`
unfoldable pub build_table : List PolicyRow → Bool → Result TableError PolicyTable
unfolding index_rows
build_table rows route = do
  require (not (is_nil rows)) no_rows
  index_rows [] rows
  with_default rows route (defaults_of rows)

abbrev pub default_local_row : PolicyRow
default_local_row = record {
  profile_name = codes "_default_local";
  production_scopes = wildcard ∷ [];
  require_authorization_decision = false;
  approval_ticket_pattern = none;
  default = true;
}

-- `default_local`
unfoldable pub default_local : Result TableError PolicyTable
unfolding build_table
default_local = build_table (default_local_row ∷ []) true

-- The row that `evaluate` selects, or the refusal of an unknown profile. `none` is a `KeyError`.
pub data Selection : Type 0 where
  row_selected : PolicyRow → Text → Selection
  refused : Text → Selection

abbrev pub default_row : PolicyTable → Option Selection
default_row table = elim (find_row table.default_name table.rows_by_name) [
  | none ↦ none
  | some row ↦ some (row_selected row table.default_name)
]

abbrev pub select_named : PolicyTable → Text → Option PolicyRow → Option Selection
select_named table profile (some row) = some (row_selected row row.profile_name)
select_named table profile none =
    if table.route_unknown_to_default then default_row table else some (refused profile)

unfoldable pub select : PolicyTable → Option Text → Option Selection
unfolding find_row
select table none = default_row table
select table (some profile) = select_named table profile (find_row profile table.rows_by_name)

abbrev pub denied : Text → DenyReason → PolicyDecision
denied matched reason = record {
  verdict = deny;
  matched_profile = matched;
  deny_reason = some reason;
}

abbrev pub permitted : Text → PolicyDecision
permitted matched = record { verdict = permit; matched_profile = matched; deny_reason = none }

module _ (fullmatch : Text → Text → Bool) where
  -- The last requirement of a row.
  unfoldable pub check_ticket : Text → Option Text → Option Text → PolicyDecision
  check_ticket matched none ticket = permitted matched
  check_ticket matched (some pattern_text) none = denied matched (ticket_missing matched)
  check_ticket matched (some pattern_text) (some ticket) =
      if ltb approval_ticket_max_len (length ticket)
      then denied matched ticket_too_long
      else if fullmatch pattern_text ticket
      then permitted matched
      else denied matched (ticket_mismatch matched)

  abbrev pub is_missing : Option (Unit {0}) → Bool
  is_missing none = true
  is_missing (some _) = false

  -- The requirements of the selected row, in their order.
  unfoldable pub check_row : PolicyRow → Text → PolicyRequest → PolicyDecision
  unfolding check_ticket permits_production_scope
  check_row row matched request =
      if permits_production_scope row request.production_scope
      then (if row.require_authorization_decision && is_missing request.authorization_decision
          then denied matched (authorization_missing matched)
          else check_ticket matched row.approval_ticket_pattern request.approval_ticket)
      else denied matched (scope_not_permitted request.production_scope matched)

  -- `evaluate`; `none` is a `KeyError`.
  unfoldable pub evaluate : PolicyTable → PolicyRequest → Option PolicyDecision
  unfolding select check_row
  evaluate table request = elim (select table request.policy_profile) [
    | none ↦ none
    | some (row_selected row matched) ↦ some (check_row row matched request)
    | some (refused profile) ↦ some (denied table.default_name (unknown_profile profile))
  ]
