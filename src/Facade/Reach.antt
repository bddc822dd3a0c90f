-- ===== src/Facade/Reach.antt =====
-- What an ordinary agent reaches through the facade.
use yomotsusaka.Prelude.{ℕ, Text, Bool, Option, none, some, ◌≡◌, refl}
use yomotsusaka.Vault.{FilePath, Codec}
use yomotsusaka.Policy.{PolicyTable}
use yomotsusaka.Audit.{AuditRecord, Log}
use yomotsusaka.Boundary.Resolver.{ResolverFailureReason}
use yomotsusaka.Boundary.Resolver as Resolver
use yomotsusaka.Boundary.Restoration.{Input, RestorationResponse, State}
use yomotsusaka.Boundary.Restoration.Gate.{
  AtMostOneRecord, Course, kept_out, let_in, restoration_request-Course,
}
use yomotsusaka.Execution.{ExecutionInput}
use yomotsusaka.Execution.Gate.{RanNothing, execute_request-RanNothing}
use yomotsusaka.Templates.{registered_templates}
use yomotsusaka.Facade.{LocalFacade, root_of, request_restore, execute}

-- A response without an entry, at most one audit record, no call of the kernel, and the disk as it was.
abbrev pub KeptOut : State → RestorationResponse × State → Type 0
KeptOut s out =
    (out.0.private_entries ≡ none) × AtMostOneRecord out.1.trace s.trace × (out.1.disk ≡ s.disk)

not_inside : ¬ (Resolver.ordinary_agent ≡ Resolver.private_boundary)
not_inside e = cc

module _ (codec : Codec) (fullmatch : Text → Text → Bool) (resolve : FilePath → FilePath)
    (audit_id : Text) (facade : LocalFacade) (table : Option PolicyTable) (s : State) where
  Course-KeptOut :
      (input : Input) (out : RestorationResponse × State)
      → Course codec fullmatch resolve
          (root_of facade)
          audit_id
          Resolver.ordinary_agent
          table
          s
          input
          out
      → KeptOut s out
  Course-KeptOut _ _ (kept_out input response s' record_added same nothing) =
      (nothing, record_added, same)
  Course-KeptOut _ _ (let_in request doc decision response s' inside found decided permits t d g) =
      absurd (not_inside inside)

  -- A restoration through the facade never gives a raw value: whatever the input, the tenant and
  -- the policy table, a response carries no entry, at most one audit record is added, the kernel
  -- is not called, and the disk stays as it was.
  pub request_restore-KeptOut :
      (input : Input) (response : RestorationResponse) (s' : State)
      → request_restore codec fullmatch resolve audit_id facade input table s ≡ (some response, s')
      → KeptOut s (response, s')
  request_restore-KeptOut input response s' e =
      Course-KeptOut input (response, s')
        (restoration_request-Course codec fullmatch resolve (root_of facade) audit_id
          Resolver.ordinary_agent table s input response s' e)

module _ (hexdigest : Text → Text) (codec : Codec) (decimal : ℕ → Text) (suffix : Text)
    (dump : AuditRecord → Text) (repr_of : Text → Text)
    (resolver_detail : ResolverFailureReason → Text) (request_id : Text) (facade : LocalFacade)
    (log : Log) where
  -- With the templates that the program registers, an execution through the facade fails, runs no
  -- template, leaves the disk as it was, and is recorded like every other call.
  pub execute-RanNothing :
      (input : ExecutionInput)
      → let templates = registered_templates hexdigest codec decimal suffix in
        RanNothing dump repr_of codec resolver_detail templates
          (root_of facade)
          request_id
          log
          (execute dump repr_of codec resolver_detail templates request_id facade input log)
  execute-RanNothing input =
      execute_request-RanNothing dump repr_of codec resolver_detail
        (registered_templates hexdigest codec decimal suffix) (root_of facade) request_id log input
        (refl, (refl, tt))
