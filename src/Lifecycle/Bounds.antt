-- ===== src/Lifecycle/Bounds.antt =====
-- What the two loops come to, how many requests they send, and what their answers were.
use yomotsusaka.Prelude.{
  ℕ, zero, suc, ◌+◌, ◌≤◌, ◌<◌, Bool, List, [], ◌∷◌, ◌≡◌, refl, arith, Bool-cases, inl, inr,
}
use yomotsusaka.Lifecycle.{
  PodHandle, Request, create, probe, remove, Reply, http_error, raised_error, replied, Event, sent,
  logged, waiting_health, CallOutcome, worked, did_not_work, not_caught, call_outcome, is_success,
  is_ok, removal_outcome, probe_outcome, announce_retry, remove_step, wait_step, remove_loop,
  wait_loop,
}

-- The requests that were sent.
abbrev pub requests : List Event → ℕ
requests [] = 0
requests (sent r ∷ h) = suc (requests h)
requests (logged m ∷ h) = requests h

-- Those among them that ask for the removal of a pod.
abbrev pub removals : List Event → ℕ
removals [] = 0
removals (sent (remove handle terminate) ∷ h) = suc (removals h)
removals (sent create ∷ h) = removals h
removals (sent (probe handle) ∷ h) = removals h
removals (logged m ∷ h) = removals h

requests-announce_retry : (n : ℕ) (h : List Event) → requests (announce_retry n h) ≡ requests h
requests-announce_retry zero h = refl
requests-announce_retry (suc n) h = refl

-- A request that was sent in a history, with what had happened before it.
pub data Sent (r : Request) (before : List Event) : List Event → Type 0 where
  newest : Sent r before (sent r ∷ before)
  under : (e : Event) {h : List Event} → Sent r before h → Sent r before (e ∷ h)

call_outcome-not_caught :
    (test : ℕ → Bool) (reply : Reply) → call_outcome test reply ≡ not_caught → reply ≡ raised_error
call_outcome-not_caught test http_error e = cc
call_outcome-not_caught test raised_error e = refl
call_outcome-not_caught test (replied status body) e = elim (Bool-cases (test status)) [
  | inl t ↦ absurd (let wrong : worked ≡ not_caught = rw t at e in cc)
  | inr f ↦ absurd (let wrong : did_not_work ≡ not_caught = rw f at e in cc)
]

module _ (answer : List Event → Request → Reply) where
  -- Since the history `start`, some sending of the request got an answer that passed the test.
  abbrev pub Answered : (ℕ → Bool) → Request → List Event → List Event → Type 0
  Answered test r start h =
      (before : List Event) × Sent r before h
      × (call_outcome test (answer before r) ≡ worked)
      × (requests start ≤ requests before)

  pub since :
      (test : ℕ → Bool) (r : Request) (start later h : List Event)
      → requests start ≤ requests later
      → Answered test r later h
      → Answered test r start h
  since test r start later h le (before, s, e, bound) = (before, s, e, omega arith)

  -- What a loop of at most `n` calls comes to.
  abbrev pub Looped : (ℕ → Bool) → Request → ℕ → List Event → CallOutcome × List Event → Type 0
  Looped test r n h (worked, h') = Answered test r h h' × (requests h' ≤ n + requests h)
  Looped test r n h (did_not_work, h') = requests h' ≡ n + requests h
  Looped test r n h (not_caught, h') =
      (answer h' r ≡ raised_error) × (requests h ≤ requests h') × (requests h' < n + requests h)

  Looped-later :
      (test : ℕ → Bool) (r : Request) (n : ℕ) (h later : List Event)
      → requests later ≡ 1 + requests h
      → (out : CallOutcome × List Event) → Looped test r n later out
      → Looped test r (suc n) h out
  Looped-later test r n h later one (worked, h') (answered, bound) =
      (since test r h later h' (omega arith) answered, omega arith)
  Looped-later test r n h later one (did_not_work, h') spent = omega arith
  Looped-later test r n h later one (not_caught, h') (raised, more, less) =
      (raised, omega arith, omega arith)

  remove_step-Looped :
      (n : ℕ) (handle : PodHandle) (terminate : Bool) (h : List Event)
      (rest : CallOutcome × List Event) (outcome : CallOutcome)
      → removal_outcome (answer h (remove handle terminate)) ≡ outcome
      → Looped is_success (remove handle terminate) (suc n) h rest
      → Looped is_success
          (remove handle terminate)
          (suc n)
          h
          (remove_step handle terminate h rest outcome)
  remove_step-Looped n handle terminate h rest worked e later =
      ((h, under _ newest, e, omega arith), omega arith)
  remove_step-Looped n handle terminate h rest did_not_work e later = later
  remove_step-Looped n handle terminate h rest not_caught e later =
      (call_outcome-not_caught is_success _ e, omega arith, omega arith)

  pub remove_loop-Looped :
      (n : ℕ) (handle : PodHandle) (terminate : Bool) (h : List Event)
      → Looped is_success (remove handle terminate) n h (remove_loop answer n handle terminate h)
  unfolding remove_loop
  remove_loop-Looped zero handle terminate h = omega arith
  remove_loop-Looped (suc n) handle terminate h =
      let later = announce_retry n (sent (remove handle terminate) ∷ h) in
      remove_step-Looped n handle terminate h (remove_loop answer n handle terminate later)
        (removal_outcome (answer h (remove handle terminate))) refl
        (Looped-later is_success (remove handle terminate) n h later
          (omega (arith, requests-announce_retry n (sent (remove handle terminate) ∷ h)))
          (remove_loop answer n handle terminate later)
          (remove_loop-Looped n handle terminate later))

  wait_step-Looped :
      (n : ℕ) (handle : PodHandle) (h : List Event) (rest : CallOutcome × List Event)
      (outcome : CallOutcome)
      → probe_outcome (answer h (probe handle)) ≡ outcome
      → Looped is_ok (probe handle) (suc n) h rest
      → Looped is_ok (probe handle) (suc n) h (wait_step handle h rest outcome)
  wait_step-Looped n handle h rest worked e later =
      ((h, under _ newest, e, omega arith), omega arith)
  wait_step-Looped n handle h rest did_not_work e later = later
  wait_step-Looped n handle h rest not_caught e later =
      (call_outcome-not_caught is_ok _ e, omega arith, omega arith)

  pub wait_loop-Looped :
      (n : ℕ) (handle : PodHandle) (h : List Event)
      → Looped is_ok (probe handle) n h (wait_loop answer n handle h)
  unfolding wait_loop
  wait_loop-Looped zero handle h = omega arith
  wait_loop-Looped (suc n) handle h =
      let later = logged waiting_health ∷ sent (probe handle) ∷ h in
      wait_step-Looped n handle h (wait_loop answer n handle later)
        (probe_outcome (answer h (probe handle))) refl
        (Looped-later is_ok (probe handle) n h later (omega arith) (wait_loop answer n handle later)
          (wait_loop-Looped n handle later))

  wait_step-removals :
      (handle : PodHandle) (h : List Event) (rest : CallOutcome × List Event)
      (outcome : CallOutcome)
      → removals rest.1 ≡ removals h
      → removals (wait_step handle h rest outcome).1 ≡ removals h
  wait_step-removals handle h rest worked e = refl
  wait_step-removals handle h rest did_not_work e = e
  wait_step-removals handle h rest not_caught e = refl

  -- Waiting asks for no removal.
  pub removals-wait_loop :
      (n : ℕ) (handle : PodHandle) (h : List Event)
      → removals (wait_loop answer n handle h).1 ≡ removals h
  unfolding wait_loop
  removals-wait_loop zero handle h = refl
  removals-wait_loop (suc n) handle h =
      let later = logged waiting_health ∷ sent (probe handle) ∷ h in
      wait_step-removals handle h (wait_loop answer n handle later)
        (probe_outcome (answer h (probe handle))) (removals-wait_loop n handle later)
