-- ===== src/Examples/Services.antt =====
-- Concrete texts, tenants, pods and batches, with the theorems on the scrubber, the tenants, the
-- lifecycle and the batch queue.
use yomotsusaka.Prelude.{
  codes, starts_with, contains, strip_prefix?, true, false, none, some, List, [], ◌∷◌, ◌≡◌, ◌↔◌,
  refl, All, ok,
}
use yomotsusaka.Schemas.{person, PrivateDictEntry}
use yomotsusaka.Charset.{is_name_char}
use yomotsusaka.Validator.Spec.{NoLeak}
use yomotsusaka.Scrubber.{
  scrub_stream, mask_from, replace_from, run_length, find_end, match_name, match_dirs,
  match_vault_path, mask_values, recheck, sort_entries,
}
use yomotsusaka.Scrubber.Paths.{NoVaultPath}
use yomotsusaka.Scrubber.Laws.{scrub_stream_clean}
use yomotsusaka.Vault.{FilePath}
use yomotsusaka.Tenant.{TenantScope, tenant_scope, is_tenant_id, is_local}
use yomotsusaka.Tenant.Laws.{tenant_scope_iff}
use yomotsusaka.BatchQueue.{
  Batches, pending, running, put_batch, new_batch, begun, start, change_batch, call_queue,
}
use yomotsusaka.BatchQueue.Laws.{
  IsConsistent, IsConsistentAt, call_queue-IsConsistent, Edge, call_queue-Edge,
}
use yomotsusaka.Prelude.{arith, eq_text, if◌then◌else◌, Bool-cases, inl, inr, ◌⊎◌, subst}
use yomotsusaka.Lifecycle.{
  Request, create, probe, remove, Reply, http_error, replied, Event, sent, text, other, PodBody,
  ManageRunPodLifecycle, start_pod, stop_pod,
}
use yomotsusaka.Lifecycle.Outcomes.{Started, Stopped, start_pod-Started, stop_pod-Stopped}

abbrev ann : List PrivateDictEntry
ann = record { key = codes "<PERSON_00000000>"; original_value = codes "Ann"; kind = person } ∷ []

log_scrubbed :
    scrub_stream (codes "Ann: /vault/private/memo.json") ann
    ≡ ok (codes "<PERSON_00000000>: /vault<vault_path>")
unfolding scrub_stream mask_from replace_from starts_with run_length find_end match_name match_dirs
    match_vault_path strip_prefix? mask_values recheck sort_entries contains is_name_char
log_scrubbed = refl

scrub_stream_clean_example :
    All (NoLeak (codes "<PERSON_00000000>: /vault<vault_path>")) ann
    × NoVaultPath (codes "<PERSON_00000000>: /vault<vault_path>")
scrub_stream_clean_example =
    scrub_stream_clean (codes "Ann: /vault/private/memo.json") ann log_scrubbed

abbrev vault : FilePath
vault = codes "vault" ∷ []

abbrev acme : TenantScope
acme = record { tenant_id = codes "acme"; vault_root = vault }

tenant_scope_iff_example :
    (tenant_scope (codes "acme") vault ≡ ok acme)
    ↔ ((is_tenant_id (codes "acme") ≡ true) × (acme ≡ acme) × (is_local acme ≡ false))
tenant_scope_iff_example = tenant_scope_iff (codes "acme") vault acme

abbrev body : PodBody
body = record {
  id = text (codes "p1");
  pod_id = other false;
  endpoint = other false;
  public_endpoint = other false;
}

-- A service that creates a pod and never lets a probe through; it deletes at the second request.
abbrev sulky : List Event → Request → Reply
sulky h create = replied 201 (some body)
sulky h (probe handle) = http_error
sulky (sent (remove a b) ∷ h) (remove handle terminate) = replied 204 none
sulky (x ∷ sent (remove a b) ∷ h) (remove handle terminate) = replied 204 none
sulky h (remove handle terminate) = replied 500 none

abbrev lifecycle : ManageRunPodLifecycle
lifecycle = record { api_key = some (codes "k"); bypass = none }

start_pod-Started_example : Started sulky [] (start_pod sulky lifecycle [])
start_pod-Started_example = start_pod-Started sulky lifecycle (codes "k") refl refl []

stop_pod-Stopped_example :
    Stopped sulky
      (record { pod_id = codes "p1"; endpoint = codes "e" })
      true
      []
      (stop_pod sulky lifecycle (record { pod_id = codes "p1"; endpoint = codes "e" }) true [])
stop_pod-Stopped_example =
    stop_pod-Stopped sulky lifecycle (codes "k")
      (record { pod_id = codes "p1"; endpoint = codes "e" }) true [] refl refl

-- A queue with one batch that waits, and the call that starts it.
abbrev waiting : Batches
waiting id = if eq_text (codes "b1") id then some (new_batch (codes "memo.1" ∷ [])) else none

waiting-IsConsistent : IsConsistent waiting
waiting-IsConsistent id b e = elim (Bool-cases (eq_text (codes "b1") id)) [
  | inl s ↦
      let same : new_batch (codes "memo.1" ∷ []) ≡ b = ground arith in
      subst (λ y. IsConsistentAt y.status y) same (refl, refl, refl, refl)
  | inr s ↦ absurd (ground arith)
]

abbrev busy : Batches
busy = put_batch (codes "b1") (begun 7 (new_batch (codes "memo.1" ∷ []))) waiting

batch_started : call_queue (start (codes "b1") 7) waiting ≡ ok busy
unfolding call_queue change_batch eq_text
batch_started = refl

call_queue-IsConsistent_example : IsConsistent busy
call_queue-IsConsistent_example =
    call_queue-IsConsistent (start (codes "b1") 7) waiting busy waiting-IsConsistent batch_started

batch_waits : waiting (codes "b1") ≡ some (new_batch (codes "memo.1" ∷ []))
unfolding eq_text
batch_waits = refl

batch_runs : busy (codes "b1") ≡ some (begun 7 (new_batch (codes "memo.1" ∷ [])))
unfolding put_batch eq_text
batch_runs = refl

call_queue-Edge_example :
    (new_batch (codes "memo.1" ∷ []) ≡ begun 7 (new_batch (codes "memo.1" ∷ [])))
    ⊎ Edge pending running
call_queue-Edge_example =
    call_queue-Edge (start (codes "b1") 7) waiting busy tt batch_started (codes "b1")
      (new_batch (codes "memo.1" ∷ [])) (begun 7 (new_batch (codes "memo.1" ∷ []))) batch_waits
      batch_runs
