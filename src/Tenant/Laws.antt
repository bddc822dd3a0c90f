-- ===== src/Tenant/Laws.antt =====
-- Which tenant ids the constructor accepts.
use yomotsusaka.Prelude.{
  Text, eq_text, true, false, ◌≡◌, ◌↔◌, ◌∷◌, [], ok, arith, Bool-cases, and_split, inl, inr, ap,
  sym, ◌∙◌,
}
use yomotsusaka.Charset.{is_traversal}
use yomotsusaka.Vault.{FilePath}
use yomotsusaka.Tenant.{
  TenantScope, tenant_scope, is_local, is_tenant_id, starts_alphanumeric, reserved_local_tenant_id,
}

starts_alphanumeric-is_traversal :
    (t : Text) → starts_alphanumeric t ≡ true → is_traversal t ≡ false
unfolding is_traversal eq_text
starts_alphanumeric-is_traversal [] h = cc
starts_alphanumeric-is_traversal (c ∷ t) h = ground arith

starts_alphanumeric-reserved :
    (t : Text) → starts_alphanumeric t ≡ true → eq_text t reserved_local_tenant_id ≡ false
unfolding eq_text
starts_alphanumeric-reserved [] h = cc
starts_alphanumeric-reserved (c ∷ t) h = ground arith

-- The constructor accepts a tenant id if and only if it matches the pattern, so that the two tests
-- in front of the pattern refuse nothing more; the scope then has the given id and vault, and is
-- never the local one.
pub tenant_scope_iff :
    (t : Text) (root : FilePath) (s : TenantScope)
    → (tenant_scope t root ≡ ok s) ↔ (
        (is_tenant_id t ≡ true)
        × (s ≡ record { tenant_id = t; vault_root = root })
        × (is_local s ≡ false))
unfolding tenant_scope is_local
tenant_scope_iff t root s = elim (Bool-cases (is_tenant_id t)) [
  | inl h ↦
      let a = (and_split (starts_alphanumeric t) _ h).0 in
      let plain = starts_alphanumeric-is_traversal t a in
      let free = starts_alphanumeric-reserved t a in
      let made : tenant_scope t root ≡ ok (record { tenant_id = t; vault_root = root }) =
        rw (plain, free, h) in
      (
        λ e.
            let same : s ≡ record { tenant_id = t; vault_root = root } = cc (made, e) in
            (h, same, rw same free),
        λ k. made ∙ ap ok (sym k.1),
      )
  | inr h ↦ (λ e. absurd (refuses e h), λ k. absurd (ground arith))
]
  where
    refuses : tenant_scope t root ≡ ok s → is_tenant_id t ≡ false → ⊥
    refuses e h = ground arith
