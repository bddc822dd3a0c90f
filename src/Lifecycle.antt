-- ===== src/Lifecycle.antt =====
-- The managed RunPod lifecycle (src/yomotsusaka/runpod_lifecycle.py). RunPod's service stands behind
-- `answer`: what a call of the client comes to may depend on everything that happened before. Besides a
-- reply and an `httpx.HTTPError`, which the code catches, a call may raise another exception before
-- anything is sent, as `httpx.InvalidURL` is, which no handler of the code catches. Sleeping and the
-- payload of the create request are left out.
pub mod Bounds
pub mod Outcomes
use yomotsusaka.Prelude.{
  ℕ, zero, suc, Text, codes, Bool, true, false, Option, none, some, List, [], ◌∷◌, ◌++◌, leb, ltb,
  ◌==◌, ◌&&◌, ◌||◌, Result, ok, err, if◌then◌else◌,
}

pub record PodHandle : Type 0 where
  pub pod_id : Text
  pub endpoint : Text

-- The terminal categories of `PodUnavailableError`, and the markers that are only logged.
pub data Category : Type 0 where
  create_failed wait_timeout wait_timeout_cleanup_failed cleanup_failed : Category

pub data Marker : Type 0 where
  created waiting_health healthy deleted stopped cleanup_retry : Marker
  terminal : Category → Marker

pub data Request : Type 0 where
  create : Request
  probe : PodHandle → Request
  -- `True` deletes the pod, `False` only stops it.
  remove : PodHandle → Bool → Request

-- A value of a JSON object: absent or of another type, with its truth value, or a string.
pub data Field : Type 0 where
  other : Bool → Field
  text : Text → Field

pub record PodBody : Type 0 where
  pub id : Field
  pub pod_id : Field
  pub endpoint : Field
  pub public_endpoint : Field

-- An `httpx.HTTPError`, another exception of the client that comes before anything is sent, or a
-- status with the body if that is a JSON object.
pub data Reply : Type 0 where
  http_error raised_error : Reply
  replied : ℕ → Option PodBody → Reply

pub data Event : Type 0 where
  sent : Request → Event
  logged : Marker → Event

-- `a or b`
abbrev pub or_field : Field → Field → Field
or_field (other true) b = other true
or_field (other false) b = b
or_field (text []) b = b
or_field (text (c ∷ t)) b = text (c ∷ t)

-- A non-empty string.
abbrev pub as_text : Field → Option Text
as_text (text (c ∷ t)) = some (c ∷ t)
as_text _ = none

abbrev pub proxy_endpoint : Text → Text
proxy_endpoint pod_id = codes "https://" ++ (pod_id ++ codes "-8000.proxy.runpod.net")

abbrev pub endpoint_or : Text → Option Text → Text
endpoint_or pod_id none = proxy_endpoint pod_id
endpoint_or pod_id (some endpoint) = endpoint

-- `endpoint.rstrip("/")`
unfoldable pub rstrip_slash : Text → Text
rstrip_slash [] = []
rstrip_slash (c ∷ t) =
    let rest = rstrip_slash t in
    elim rest [ [] ↦ (if c == b'/' then [] else c ∷ []) | x ∷ xs ↦ c ∷ x ∷ xs ]

abbrev pub identify : PodBody → Option Text → Option PodHandle
identify body none = none
identify body (some pod_id) = some (record {
  pod_id = pod_id;
  endpoint = endpoint_or pod_id (as_text (or_field body.endpoint body.public_endpoint));
})

-- `_extract_pod_identity`
unfoldable pub extract_pod_identity : Option PodBody → Option PodHandle
extract_pod_identity none = none
extract_pod_identity (some body) = identify body (as_text (or_field body.id body.pod_id))

abbrev pub is_success : ℕ → Bool
is_success status = leb 200 status && ltb status 300

abbrev pub strip_handle : Option PodHandle → Option PodHandle
strip_handle none = none
strip_handle (some h) = some (record h { endpoint = rstrip_slash h.endpoint })

-- What `start_pod` makes of the reply to its create request.
unfoldable pub created_handle : Reply → Option PodHandle
unfolding extract_pod_identity rstrip_slash
created_handle http_error = none
created_handle raised_error = none
created_handle (replied status body) =
    if is_success status then strip_handle (extract_pod_identity body) else none

-- What a call of the client, or a loop of calls, comes to: it did what was asked, it did not, or it
-- raised what is not caught.
pub data CallOutcome : Type 0 where
  worked did_not_work not_caught : CallOutcome

-- A call with its handler, and the test on the status.
abbrev pub call_outcome : (ℕ → Bool) → Reply → CallOutcome
call_outcome test http_error = did_not_work
call_outcome test raised_error = not_caught
call_outcome test (replied status body) = if test status then worked else did_not_work

abbrev pub removal_outcome : Reply → CallOutcome
removal_outcome reply = call_outcome is_success reply

abbrev pub is_ok : ℕ → Bool
is_ok status = status == 200

-- `is_ready`
abbrev pub probe_outcome : Reply → CallOutcome
probe_outcome reply = call_outcome is_ok reply

-- `_MANAGE_HEALTH_POLL_MAX_ATTEMPTS`, `_MANAGE_CLEANUP_MAX_ATTEMPTS`
abbrev pub health_poll_max_attempts : ℕ
health_poll_max_attempts = 60

abbrev pub cleanup_max_attempts : ℕ
cleanup_max_attempts = 2

-- `bypass` is there when both parts of a handle were given: then nothing is sent.
pub record ManageRunPodLifecycle : Type 0 where
  pub api_key : Option Text
  pub bypass : Option PodHandle

abbrev pub non_empty : Option Text → Option Text
non_empty none = none
non_empty (some []) = none
non_empty (some (c ∷ t)) = some (c ∷ t)

abbrev pub or_else : Option Text → Option Text → Option Text
or_else none env = env
or_else (some t) env = some t

abbrev pub is_some : Option Text → Bool
is_some none = false
is_some (some _) = true

abbrev pub bypass_handle : Option Text → Option Text → Option PodHandle
bypass_handle (some pod_id) (some endpoint) =
    some (record { pod_id = pod_id; endpoint = rstrip_slash endpoint })
bypass_handle _ _ = none

-- The constructor; `env` is `RUNPOD_API_KEY`. An error is a `RunPodConfigError`.
unfoldable pub make_lifecycle :
    Option Text → Option Text → Option Text → Option Text → Result (Unit {0}) ManageRunPodLifecycle
unfolding rstrip_slash
make_lifecycle api_key env pod_id endpoint =
    let resolved = non_empty (or_else api_key env) in
    if is_some pod_id && is_some endpoint || is_some resolved
    then ok (record { api_key = resolved; bypass = bypass_handle pod_id (non_empty endpoint) })
    else err tt

-- A retry is announced while attempts are left.
abbrev pub announce_retry : ℕ → List Event → List Event
announce_retry zero h = h
announce_retry (suc n) h = logged cleanup_retry ∷ h

-- What a call of `stop_pod` comes to: `RunPodConfigError` is `key_required`, and an exception of the
-- client that is not caught is `stop_escaped`.
pub data StopResult : Type 0 where
  gone key_required stop_escaped : StopResult
  unavailable : Category → StopResult

abbrev pub stop_result : CallOutcome → StopResult
stop_result worked = gone
stop_result did_not_work = unavailable cleanup_failed
stop_result not_caught = stop_escaped

pub data StartResult : Type 0 where
  started : PodHandle → StartResult
  not_started : Category → StartResult
  start_key_required start_escaped : StartResult

-- What `start_pod` raises when the pod did not become healthy and was cleaned up or not.
abbrev pub cleanup_outcome : StopResult → StartResult
cleanup_outcome gone = not_started wait_timeout
cleanup_outcome (unavailable _) = not_started wait_timeout_cleanup_failed
cleanup_outcome key_required = start_key_required
cleanup_outcome stop_escaped = start_escaped

-- One turn of the loop of `stop_pod`, with what the later turns come to.
abbrev pub remove_step :
    PodHandle
    → Bool
    → List Event
    → CallOutcome × List Event
    → CallOutcome
    → CallOutcome × List Event
remove_step handle terminate h rest worked =
    (worked, logged (if terminate then deleted else stopped) ∷ sent (remove handle terminate) ∷ h)
remove_step handle terminate h rest did_not_work = rest
remove_step handle terminate h rest not_caught = (not_caught, h)

-- One turn of `_wait_for_healthy`.
abbrev pub wait_step :
    PodHandle → List Event → CallOutcome × List Event → CallOutcome → CallOutcome × List Event
wait_step handle h rest worked = (worked, logged healthy ∷ sent (probe handle) ∷ h)
wait_step handle h rest did_not_work = rest
wait_step handle h rest not_caught = (not_caught, h)

module _ (answer : List Event → Request → Reply) where
  -- The loop of `stop_pod`, with the attempts that are left.
  unfoldable pub remove_loop : ℕ → PodHandle → Bool → List Event → CallOutcome × List Event
  remove_loop zero handle terminate h = (did_not_work, logged (terminal cleanup_failed) ∷ h)
  remove_loop (suc n) handle terminate h =
      let rest =
        remove_loop n handle terminate (announce_retry n (sent (remove handle terminate) ∷ h)) in
      remove_step handle terminate h rest (removal_outcome (answer h (remove handle terminate)))

  -- `_wait_for_healthy`, with the probes that are left.
  unfoldable pub wait_loop : ℕ → PodHandle → List Event → CallOutcome × List Event
  wait_loop zero handle h = (did_not_work, logged (terminal wait_timeout) ∷ h)
  wait_loop (suc n) handle h =
      let rest = wait_loop n handle (logged waiting_health ∷ sent (probe handle) ∷ h) in
      wait_step handle h rest (probe_outcome (answer h (probe handle)))

  abbrev pub stop_with_key : Option Text → PodHandle → Bool → List Event → StopResult × List Event
  stop_with_key none handle terminate h = (key_required, h)
  stop_with_key (some key) handle terminate h =
      let out = remove_loop cleanup_max_attempts handle terminate h in (stop_result out.0, out.1)

  -- `stop_pod`
  unfoldable pub stop_pod :
      ManageRunPodLifecycle → PodHandle → Bool → List Event → StopResult × List Event
  unfolding remove_loop
  stop_pod lifecycle handle terminate h = elim lifecycle.bypass [
    | some _ ↦ (gone, h)
    | none ↦ stop_with_key lifecycle.api_key handle terminate h
  ]

  unfoldable pub after_wait :
      ManageRunPodLifecycle → PodHandle → CallOutcome × List Event → StartResult × List Event
  unfolding stop_pod
  after_wait lifecycle handle (worked, h) = (started handle, h)
  after_wait lifecycle handle (did_not_work, h) =
      let cleanup = stop_pod lifecycle handle true h in (cleanup_outcome cleanup.0, cleanup.1)
  after_wait lifecycle handle (not_caught, h) = (start_escaped, h)

  unfoldable pub after_create :
      ManageRunPodLifecycle → Option PodHandle → List Event → StartResult × List Event
  unfolding wait_loop after_wait
  after_create lifecycle none h = (not_started create_failed, logged (terminal create_failed) ∷ h)
  after_create lifecycle (some handle) h =
      after_wait lifecycle handle (wait_loop health_poll_max_attempts handle (logged created ∷ h))

  abbrev pub create_step : ManageRunPodLifecycle → List Event → Reply → StartResult × List Event
  create_step lifecycle h raised_error = (start_escaped, h)
  create_step lifecycle h http_error =
      after_create lifecycle (created_handle http_error) (sent create ∷ h)
  create_step lifecycle h (replied status body) =
      after_create lifecycle (created_handle (replied status body)) (sent create ∷ h)

  -- A given handle is returned without any network activity.
  unfoldable pub start_from :
      ManageRunPodLifecycle → Option PodHandle → List Event → StartResult × List Event
  unfolding after_create created_handle
  start_from lifecycle (some handle) h = (started handle, h)
  start_from lifecycle none h = create_step lifecycle h (answer h create)

  -- `start_pod`
  unfoldable pub start_pod : ManageRunPodLifecycle → List Event → StartResult × List Event
  unfolding start_from
  start_pod lifecycle h = start_from lifecycle lifecycle.bypass h
