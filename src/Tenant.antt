-- ===== src/Tenant.antt =====
-- The scope that binds a tenant to its vault (src/yomotsusaka/tenant.py, and `_resolve_tenant` of
-- src/yomotsusaka/boundary.py).
pub mod Laws
use yomotsusaka.Prelude.{
  Text, codes, eq_text, Bool, true, false, not, Option, none, some, [], ◌∷◌, ◌&&◌, Result, ok, err,
  ◌>>=◌, ◌>>◌, require,
}
use yomotsusaka.Charset.{is_alphanumeric, is_name, is_traversal}
use yomotsusaka.Vault.{FilePath}

pub record TenantScope : Type 0 where
  pub tenant_id : Text
  pub vault_root : FilePath

pub data TenantError : Type 0 where
  traversal_tenant reserved_tenant bad_tenant : TenantError

-- `_RESERVED_LOCAL_TENANT_ID`
abbrev pub reserved_local_tenant_id : Text
reserved_local_tenant_id = codes "_local"

abbrev pub starts_alphanumeric : Text → Bool
starts_alphanumeric [] = false
starts_alphanumeric (c ∷ t) = is_alphanumeric c

-- `_TENANT_ID_PATTERN`: 1 to 64 characters.
abbrev pub is_tenant_id : Text → Bool
is_tenant_id t = starts_alphanumeric t && is_name 64 t

-- The constructor with its validator.
unfoldable pub tenant_scope : Text → FilePath → Result TenantError TenantScope
unfolding eq_text is_traversal is_name
tenant_scope tenant_id vault_root = do
  require (not (is_traversal tenant_id)) traversal_tenant
  require (not (eq_text tenant_id reserved_local_tenant_id)) reserved_tenant
  require (is_tenant_id tenant_id) bad_tenant
  ok (record { tenant_id = tenant_id; vault_root = vault_root })

-- `TenantScope.local`
unfoldable pub local_scope : FilePath → TenantScope
local_scope vault_root = record { tenant_id = reserved_local_tenant_id; vault_root = vault_root }

-- `is_local`
unfoldable pub is_local : TenantScope → Bool
unfolding eq_text
is_local scope = eq_text scope.tenant_id reserved_local_tenant_id

-- The programmer's errors: a call that names two vaults, or none.
pub data ResolverError : Type 0 where
  both_given neither_given : ResolverError

-- `_resolve_tenant`
unfoldable pub resolve_tenant :
    Option TenantScope → Option FilePath → Result ResolverError TenantScope
unfolding local_scope
resolve_tenant (some tenant) (some vault_root) = err both_given
resolve_tenant none none = err neither_given
resolve_tenant (some tenant) none = ok tenant
resolve_tenant none (some vault_root) = ok (local_scope vault_root)
