-- ===== src/Policy/Default.antt =====
-- The permissive table that stands in for a missing one.
use yomotsusaka.Prelude.{
  Text, eq_text, Bool, true, Option, none, some, [], ◌∷◌, ◌≡◌, refl, ok, inl, inr, Bool-cases,
}
use yomotsusaka.Policy.{
  PolicyTable, PolicyRequest, PolicyDecision, permit, default_local, default_local_row, evaluate,
  select, select_named, row_selected, permitted,
}

abbrev pub local_table : PolicyTable
local_table = record {
  rows_by_name = default_local_row ∷ [];
  default_name = default_local_row.profile_name;
  route_unknown_to_default = true;
}

pub default_local_lem : default_local ≡ ok local_table
unfolding default_local
default_local_lem = refl

local_row :
    (profile : Option Text)
    → (name : Text) × (select local_table profile ≡ some (row_selected default_local_row name))
unfolding select eq_text
local_row none = (default_local_row.profile_name, refl)
local_row (some p) = (
  default_local_row.profile_name,
  elim (Bool-cases (eq_text p default_local_row.profile_name)) [
    | inl e ↦ rw (e, select_named) refl
    | inr e ↦ rw (e, select_named) refl
  ],
)

pub evaluate-local_table :
    (fullmatch : Text → Text → Bool) (request : PolicyRequest)
    → (decision : PolicyDecision) × (evaluate fullmatch local_table request ≡ some decision)
      × (decision.verdict ≡ permit)
unfolding evaluate eq_text
evaluate-local_table fullmatch request =
    let (name, e) = local_row request.policy_profile in
    (permitted name, rw (evaluate, e) refl, refl)
