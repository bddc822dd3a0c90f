-- ===== src/Facade.antt =====
-- `LocalFacade` (src/yomotsusaka/facade.py): the entry points of the boundary for an ordinary agent,
-- over one tenant. The identifiers of the calls come from outside, as do the templates.
pub mod Reach
use yomotsusaka.Prelude.{ℕ, Text, Bool, Option, none, some, List, [], Result, ok, err}
use yomotsusaka.Redactor.{Span}
use yomotsusaka.Vault.{FilePath, Disk, Codec}
use yomotsusaka.Tenant.{TenantScope, local_scope}
use yomotsusaka.Audit.{AuditRecord, Log}
use yomotsusaka.Boundary.Resolver.{
  ResolverFailureReason, ProcessError, Inspection, ReportStatus, process_document_request,
  inspect_request, status_report_request,
}
use yomotsusaka.Boundary.Resolver as Resolver
use yomotsusaka.Boundary.Restoration.{Input, RestorationResponse, State, restoration_request}
use yomotsusaka.Policy.{PolicyTable}
use yomotsusaka.SearchGateway.{SearchGateway, SearchHit, SearchError, search_request}
use yomotsusaka.Execution.{ordinary_agent, ExecutionInput, ExecutionResponse, TemplateSpec}
use yomotsusaka.Execution.Dispatch.{execute_request}

pub record LocalFacade : Type 0 where
  pub tenant : TenantScope
  pub held_gateway : Option SearchGateway

pub data FacadeError : Type 0 where
  two_vaults no_vault : FacadeError

-- `LocalFacade(vault_root, tenant=, gateway=)`
unfoldable pub local_facade :
    Option FilePath → Option TenantScope → Option SearchGateway → Result FacadeError LocalFacade
unfolding local_scope
local_facade (some root) (some tenant) gateway = err two_vaults
local_facade none none gateway = err no_vault
local_facade none (some tenant) gateway = ok (record { tenant = tenant; held_gateway = gateway })
local_facade (some root) none gateway =
    ok (record { tenant = local_scope root; held_gateway = gateway })

-- `vault_root`
abbrev pub root_of : LocalFacade → FilePath
root_of facade = facade.tenant.vault_root

abbrev pub or_fresh : Option SearchGateway → SearchGateway
or_fresh none = record { manifests = []; resolver = none }
or_fresh (some gateway) = gateway

-- `gateway`: a fresh one is kept on the first use.
abbrev pub gateway_of : LocalFacade → SearchGateway × LocalFacade
gateway_of facade =
    let gateway = or_fresh facade.held_gateway in
    (gateway, record { tenant = facade.tenant; held_gateway = some gateway })

-- `process`
abbrev pub process :
    (Text → Text)
    → Codec
    → LocalFacade
    → Text
    → Text
    → List Span
    → Disk
    → Result ProcessError Text × Disk
process hexdigest codec facade doc_id raw_text spans d =
    process_document_request hexdigest codec doc_id raw_text spans (root_of facade) d

-- `inspect`
abbrev pub inspect : Codec → LocalFacade → Text → Text → Disk → Inspection
inspect codec facade locator purpose d = inspect_request codec locator purpose (root_of facade) d

-- `status_report`
abbrev pub status_report : LocalFacade → Text → Disk → ReportStatus
status_report facade locator d = status_report_request locator (root_of facade) d

-- `search`
unfoldable pub search :
    (Text → Text) → LocalFacade → Text → ℕ → Result SearchError (List SearchHit) × LocalFacade
unfolding search_request
search lower facade query top_k =
    let (gateway, after) = gateway_of facade in (search_request lower gateway query top_k, after)

-- `request_restore`. The source passes no table to `restoration_request`, which is `none` here; what is
-- shown holds of every table.
abbrev pub request_restore :
    Codec
    → (Text → Text → Bool)
    → (FilePath → FilePath)
    → Text
    → LocalFacade
    → Input
    → Option PolicyTable
    → State
    → Option RestorationResponse × State
request_restore codec fullmatch resolve audit_id facade input table s =
    restoration_request codec fullmatch resolve (root_of facade) audit_id Resolver.ordinary_agent
      input table s

-- `execute`
abbrev pub execute :
    (AuditRecord → Text)
    → (Text → Text)
    → Codec
    → (ResolverFailureReason → Text)
    → List TemplateSpec
    → Text
    → LocalFacade
    → ExecutionInput
    → Log
    → ExecutionResponse × Log
execute dump repr_of codec resolver_detail templates request_id facade input log =
    execute_request dump repr_of codec resolver_detail templates (root_of facade) request_id
      ordinary_agent input log
