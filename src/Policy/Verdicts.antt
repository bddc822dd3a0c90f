-- ===== src/Policy/Verdicts.antt =====
-- When a table permits a request.
use yomotsusaka.Prelude.{
  ◌≤◌, Text, Bool, true, false, Option, none, some, List, [], ◌∷◌, ◌≡◌, Option-cases, ◌⊎◌, ◌↔◌,
  refl, sym, ap, subst, ◌∙◌, length, ok, Bool-cases, Option-cases, inl, inr, arith, if◌then◌else◌,
  ◌&&◌,
}
use yomotsusaka.Validator.Spec.{Has, is_member_iff}
use yomotsusaka.Policy.{
  PolicyRow, PolicyRequest, PolicyTable, PolicyDecision, permit, denied, wildcard,
  permits_production_scope, check_ticket, check_row, evaluate, is_nil, is_missing, DenyReason,
  default_row, select_named, build_table, select, row_selected, refused, find_row, unknown_profile,
}
use yomotsusaka.Policy.Table.{build_table_default}

pub is_nil_iff : (ss : List Text) → (is_nil ss ≡ true) ↔ (ss ≡ [])
is_nil_iff [] = (λ _. refl, λ _. refl)
is_nil_iff (s ∷ ss) = (λ h. cc, λ h. cc)

module _ (fullmatch : Text → Text → Bool) where
  -- The scopes that a row takes: all of them, or those it lists, or none if it lists none.
  abbrev pub ScopeAllowed : List Text → Option Text → Type 0
  ScopeAllowed scopes none = Has wildcard scopes ⊎ (scopes ≡ [])
  ScopeAllowed scopes (some s) = Has wildcard scopes ⊎ Has s scopes

  -- A ticket of at most 256 characters that matches the row's pattern, if the row has one.
  abbrev pub TicketAllowed : Option Text → Option Text → Type 0
  TicketAllowed none ticket = Unit
  TicketAllowed (some pattern_text) none = ⊥
  TicketAllowed (some pattern_text) (some ticket) =
      (length ticket ≤ 256) × (fullmatch pattern_text ticket ≡ true)

  -- The three requirements of a row.
  pub record Meets (row : PolicyRow) (request : PolicyRequest) : Type 0 where
    pub scope : ScopeAllowed row.production_scopes request.production_scope
    pub authorization :
        row.require_authorization_decision ≡ true → request.authorization_decision ≡ some tt
    pub ticket : TicketAllowed row.approval_ticket_pattern request.approval_ticket

  scope_iff :
      (row : PolicyRow) (value : Option Text)
      → (permits_production_scope row value ≡ true) ↔ ScopeAllowed row.production_scopes value
  unfolding permits_production_scope
  scope_iff row none =
      ground (arith, is_member_iff wildcard row.production_scopes, is_nil_iff row.production_scopes)
  scope_iff row (some s) =
      ground
        (arith, is_member_iff wildcard row.production_scopes, is_member_iff s row.production_scopes)

  ticket_iff :
      (matched : Text) (p t : Option Text)
      → ((check_ticket fullmatch matched p t).verdict ≡ permit) ↔ TicketAllowed p t
  unfolding check_ticket
  ticket_iff matched none t = (λ _. tt, λ _. refl)
  ticket_iff matched (some p) none = (λ h. cc, λ h. absurd h)
  ticket_iff matched (some p) (some t) = ground arith

  missing_iff : (o : Option (Unit {0})) → (is_missing fullmatch o ≡ false) ↔ (o ≡ some tt)
  missing_iff none = (λ h. cc, λ h. cc)
  missing_iff (some tt) = (λ _. refl, λ _. refl)

  -- Three requirements in turn, the first two by their tests.
  chain_iff :
      (s r m : Bool) (matched : Text) (a b : DenyReason) (t : PolicyDecision)
      → ((if s then (if r && m then denied matched a else t) else denied matched b).verdict
          ≡ permit)
        ↔ ((s ≡ true) × ((r ≡ true → m ≡ false) × (t.verdict ≡ permit)))
  chain_iff false r m matched a b t = (λ h. cc, λ h. cc)
  chain_iff true false m matched a b t = (λ h. (refl, (λ e. cc, h)), λ h. h.1.1)
  chain_iff true true false matched a b t = (λ h. (refl, (λ e. refl, h)), λ h. h.1.1)
  chain_iff true true true matched a b t = (λ h. cc, λ h. let bad = h.1.0 refl in absurd (cc))

  check_row_iff :
      (row : PolicyRow) (matched : Text) (request : PolicyRequest)
      → ((check_row fullmatch row matched request).verdict ≡ permit) ↔ Meets row request
  unfolding check_row
  check_row_iff row matched request =
      let chain =
        chain_iff (permits_production_scope row request.production_scope)
          row.require_authorization_decision (is_missing fullmatch request.authorization_decision)
          matched _ _
          (check_ticket fullmatch matched row.approval_ticket_pattern request.approval_ticket) in
      let scope = scope_iff row request.production_scope in
      let ticket = ticket_iff matched row.approval_ticket_pattern request.approval_ticket in
      let missing = missing_iff request.authorization_decision in
      (
        λ h.
            let (a, (b, c)) = chain.0 h in
            record { scope = scope.0 a; authorization = λ e. missing.0 (b e); ticket = ticket.0 c },
        λ m. chain.1 (scope.1 m.scope, (λ e. missing.1 (m.authorization e), ticket.1 m.ticket)),
      )

  default_row-some :
      (table : PolicyTable) (row : PolicyRow)
      → find_row table.default_name table.rows_by_name ≡ some row
      → default_row table ≡ some (row_selected row table.default_name)
  default_row-some table row h = rw (h, default_row)

  -- The row that a request falls under: the one that it names, or the default row, when it names
  -- none or the table sends unknown names there.
  abbrev pub Governs : PolicyTable → Option Text → PolicyRow → Type 0
  Governs table none row = find_row table.default_name table.rows_by_name ≡ some row
  Governs table (some profile) row =
      (find_row profile table.rows_by_name ≡ some row)
      ⊎ ((find_row profile table.rows_by_name ≡ none)
          × (table.route_unknown_to_default ≡ true)
          × (find_row table.default_name table.rows_by_name ≡ some row))

  -- What `select` comes to, told by the rows.
  data Selects (table : PolicyTable) (profile : Option Text) : Type 0 where
    governed :
        (row : PolicyRow) (matched : Text)
        → select table profile ≡ some (row_selected row matched)
        → Governs table profile row
        → Selects table profile
    turned_away :
        (name : Text)
        → select table profile ≡ some (refused name)
        → ((row : PolicyRow) → ¬ Governs table profile row)
        → Selects table profile

  selects :
      (table : PolicyTable) (default : PolicyRow) (profile : Option Text)
      → find_row table.default_name table.rows_by_name ≡ some default
      → Selects table profile
  unfolding select
  selects table default none found =
      governed default table.default_name (default_row-some table default found) found
  selects table default (some name) found = elim (Option-cases (find_row name table.rows_by_name)) [
    | inl e ↦ elim (Bool-cases table.route_unknown_to_default) [
      | inl r ↦
          governed default table.default_name
            (ap (select_named table name) e ∙ rw (r, default_row-some table default found))
            (inr (e, r, found))
      | inr r ↦ turned_away name (ap (select_named table name) e ∙ rw r) λ row g. ground arith
    ]
    | inr (row, e) ↦ governed row row.profile_name (ap (select_named table name) e) (inl e)
  ]

  same_row :
      (table : PolicyTable) (profile : Option Text) (x y : PolicyRow)
      → Governs table profile x
      → Governs table profile y
      → x ≡ y
  same_row table none x y g h = ground arith
  same_row table (some name) x y g h = ground arith

  module _ (rows : List PolicyRow) (route : Bool) (table : PolicyTable)
      (built : build_table rows route ≡ ok table) where
    -- On a table that the constructor accepted, `evaluate` always comes to a decision, and the
    -- decision is a permit if and only if a row governs the request (the row that the request
    -- names, or the default row if it names none or the table sends unknown names there) whose
    -- requirements on scope, authorization and ticket the request meets.
    pub evaluate_iff :
        (request : PolicyRequest)
        → (decision : PolicyDecision) × (evaluate fullmatch table request ≡ some decision)
          × ((decision.verdict ≡ permit)
              ↔ ((row : PolicyRow) × Governs table request.policy_profile row × Meets row request))
    unfolding evaluate
    evaluate_iff request =
        let (keeps, _, (default, found, _, _)) = build_table_default rows route table built in
        go (
          selects table default request.policy_profile
            (subst (λ rs. find_row table.default_name rs ≡ some default) (sym keeps) found))
      where
        go :
            Selects table request.policy_profile
            → (decision : PolicyDecision) × (evaluate fullmatch table request ≡ some decision)
              × ((decision.verdict ≡ permit) ↔ (
                  (row : PolicyRow) × Governs table request.policy_profile row × Meets row request))
        go (governed row matched e g) = (
          check_row fullmatch row matched request,
          rw (e, evaluate),
          (
            λ h. (row, g, (check_row_iff row matched request).0 h),
            λ (r, gr, m).
                (check_row_iff row matched request).1 (
                  subst (λ x. Meets x request) (same_row table request.policy_profile r row gr g)
                    m),
          ),
        )
        go (turned_away name e none_governs) = (
          denied table.default_name (unknown_profile name),
          rw (e, evaluate),
          (λ h. cc, λ (r, gr, m). absurd (none_governs r gr)),
        )
