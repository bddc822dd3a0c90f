-- ===== src/Lifecycle/Outcomes.antt =====
-- What each outcome of `start_pod` and `stop_pod` says of the pod.
use yomotsusaka.Prelude.{
  ◌+◌, ◌≤◌, ◌<◌, Text, Bool, true, Option, none, some, List, ◌∷◌, ◌≡◌, ◌⊎◌, inl, inr, refl, sym,
  subst, ap, arith,
}
use yomotsusaka.Lifecycle.{
  PodHandle, Request, create, probe, remove, Reply, http_error, raised_error, replied, Event, sent,
  logged, create_failed, wait_timeout, wait_timeout_cleanup_failed, cleanup_failed, created,
  is_success, is_ok, CallOutcome, worked, did_not_work, not_caught, created_handle,
  health_poll_max_attempts, cleanup_max_attempts, ManageRunPodLifecycle, remove_loop, wait_loop,
  StopResult, gone, key_required, stop_escaped, unavailable, stop_result, stop_pod, StartResult,
  started, not_started, start_key_required, start_escaped, cleanup_outcome, after_wait,
  after_create, create_step, start_from, start_pod,
}
use yomotsusaka.Lifecycle.Bounds.{
  requests, removals, Answered, since, Looped, remove_loop-Looped, wait_loop-Looped,
  removals-wait_loop,
}

module _ (answer : List Event → Request → Reply) where
  -- What each result of `stop_pod` has to mean.
  abbrev pub Stopped : PodHandle → Bool → List Event → StopResult × List Event → Type 0
  Stopped handle terminate h (gone, h') =
      Answered answer is_success (remove handle terminate) h h' × (requests h' ≤ 2 + requests h)
  Stopped handle terminate h (unavailable c, h') =
      (c ≡ cleanup_failed) × (requests h' ≡ 2 + requests h)
  Stopped handle terminate h (stop_escaped, h') =
      (answer h' (remove handle terminate) ≡ raised_error)
      × (requests h ≤ requests h')
      × (requests h' < 2 + requests h)
  Stopped handle terminate h (key_required, h') = ⊥

  Looped-Stopped :
      (handle : PodHandle) (terminate : Bool) (h : List Event) (out : CallOutcome × List Event)
      → Looped answer is_success (remove handle terminate) 2 h out
      → Stopped handle terminate h (stop_result out.0, out.1)
  Looped-Stopped handle terminate h (worked, h') looped = looped
  Looped-Stopped handle terminate h (did_not_work, h') looped = (refl, looped)
  Looped-Stopped handle terminate h (not_caught, h') looped = looped

  -- If a lifecycle has an API key and no handle was given to it, then one of three things is true
  -- of `stop_pod`, whatever the client's calls come to. It reports that the pod is gone, and the
  -- service accepted one of the at most two requests of this call to remove it; or it fails with
  -- `cleanup_failed` after exactly two requests; or the client raised an exception that is not
  -- caught in a removal, after at most one request, and it escapes.
  pub stop_pod-Stopped :
      (lifecycle : ManageRunPodLifecycle) (key : Text) (handle : PodHandle) (terminate : Bool)
      (h : List Event)
      → lifecycle.bypass ≡ none
      → lifecycle.api_key ≡ some key
      → Stopped handle terminate h (stop_pod answer lifecycle handle terminate h)
  unfolding stop_pod
  stop_pod-Stopped lifecycle key handle terminate h plain keyed =
      rw (plain, keyed)
        (Looped-Stopped handle terminate h
          (remove_loop answer cleanup_max_attempts handle terminate h)
          (remove_loop-Looped answer 2 handle terminate h))

  -- How an exception that is not caught leaves `start_pod`: nothing was sent; or the pod was created,
  -- a probe raised, and no removal was asked for; or the pod was created, all probes were sent, and
  -- the removal raised.
  abbrev pub Escaped : List Event → List Event → Type 0
  Escaped h h' =
      ((answer h create ≡ raised_error) × (h' ≡ h))
      ⊎ ((handle : PodHandle) × (created_handle (answer h create) ≡ some handle)
          × (((answer h' (probe handle) ≡ raised_error)
                × (removals h' ≡ removals h)
                × (requests h' < 61 + requests h))
              ⊎ ((answer h' (remove handle true) ≡ raised_error)
                  × (61 + requests h ≤ requests h')
                  × (requests h' < 63 + requests h))))

  -- What each result of `start_pod` has to mean: which requests were sent and accepted.
  abbrev pub Started : List Event → StartResult × List Event → Type 0
  Started h (started handle, h') =
      (created_handle (answer h create) ≡ some handle)
      × Answered answer is_ok (probe handle) h h'
      × (requests h' ≤ 61 + requests h)
  Started h (not_started create_failed, h') =
      (created_handle (answer h create) ≡ none) × (requests h' ≡ 1 + requests h)
  Started h (not_started wait_timeout, h') =
      (handle : PodHandle) × (created_handle (answer h create) ≡ some handle)
      × Answered answer is_success (remove handle true) h h'
      × (requests h' ≤ 63 + requests h)
  Started h (not_started wait_timeout_cleanup_failed, h') =
      (handle : PodHandle) × (created_handle (answer h create) ≡ some handle)
      × (requests h' ≡ 63 + requests h)
  Started h (not_started cleanup_failed, h') = ⊥
  Started h (start_key_required, h') = ⊥
  Started h (start_escaped, h') = Escaped h h'

  cleanup-Started :
      (handle : PodHandle) (h before : List Event)
      → created_handle (answer h create) ≡ some handle
      → requests before ≡ 61 + requests h
      → (out : StopResult × List Event) → Stopped handle true before out
      → Started h (cleanup_outcome out.0, out.1)
  cleanup-Started handle h before made spent (gone, h') (removed, bound) = (
    handle,
    made,
    since answer is_success (remove handle true) h before h' (omega arith) removed,
    omega arith,
  )
  cleanup-Started handle h before made spent (unavailable c, h') (_, both) =
      (handle, made, omega arith)
  cleanup-Started handle h before made spent (stop_escaped, h') (raised, more, less) =
      inr (handle, made, inr (raised, omega arith, omega arith))
  cleanup-Started handle h before made spent (key_required, h') s = absurd s

  module _ (lifecycle : ManageRunPodLifecycle) (key : Text) (plain : lifecycle.bypass ≡ none)
      (keyed : lifecycle.api_key ≡ some key) where
    after_wait-Started :
        (handle : PodHandle) (h before : List Event) (out : CallOutcome × List Event)
        → created_handle (answer h create) ≡ some handle
        → requests before ≡ 1 + requests h
        → removals out.1 ≡ removals h
        → Looped answer is_ok (probe handle) 60 before out
        → Started h (after_wait answer lifecycle handle out)
    unfolding after_wait
    after_wait-Started handle h before (worked, h') made one kept (answered, bound) =
        (made, since answer is_ok (probe handle) h before h' (omega arith) answered, omega arith)
    after_wait-Started handle h before (did_not_work, h') made one kept spent =
        cleanup-Started handle h h' made (omega arith) (stop_pod answer lifecycle handle true h')
          (stop_pod-Stopped lifecycle key handle true h' plain keyed)
    after_wait-Started handle h before (not_caught, h') made one kept (raised, more, less) =
        inr (handle, made, inl (raised, kept, omega arith))

    after_create-Started :
        (h : List Event) (made : Option PodHandle)
        → created_handle (answer h create) ≡ made
        → Started h (after_create answer lifecycle made (sent create ∷ h))
    unfolding after_create
    after_create-Started h none e = (e, omega arith)
    after_create-Started h (some handle) e =
        let before = logged created ∷ sent create ∷ h in
        after_wait-Started handle h before (wait_loop answer health_poll_max_attempts handle before)
          e (omega arith) (removals-wait_loop answer 60 handle before)
          (wait_loop-Looped answer 60 handle before)

    create_step-Started :
        (h : List Event) (reply : Reply)
        → answer h create ≡ reply
        → Started h (create_step answer lifecycle h reply)
    create_step-Started h raised_error e = inl (e, refl)
    create_step-Started h http_error e =
        after_create-Started h (created_handle http_error) (ap created_handle e)
    create_step-Started h (replied status body) e =
        after_create-Started h (created_handle (replied status body)) (ap created_handle e)

    -- If a lifecycle has an API key and no handle was given to it, then the result of `start_pod`
    -- tells what became of the pod in this call, whatever the client's calls come to. A pod that
    -- is returned was created and answered a probe with 200. On `create_failed` there is no handle
    -- and the create request is the only one that was sent. On `wait_timeout` the pod was created
    -- and the service accepted a request to delete it. On `wait_timeout_cleanup_failed` the pod
    -- was created and all of the sixty-three requests were sent. If an exception that is not
    -- caught escapes, then the client raised it in the create request and nothing was sent; or the
    -- pod was created, the client raised it in a probe, and no removal was asked for; or the pod
    -- was created, all sixty probes were sent, and the client raised it in a removal. No other
    -- result occurs, and at most sixty-three requests are sent.
    pub start_pod-Started : (h : List Event) → Started h (start_pod answer lifecycle h)
    unfolding start_pod start_from
    start_pod-Started h =
        subst (λ b. Started h (start_from answer lifecycle b h)) (sym plain)
          (create_step-Started h (answer h create) refl)
