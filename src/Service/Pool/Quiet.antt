-- ===== src/Service/Pool/Quiet.antt =====
-- When no thread of the pool can go on, every request has its answer.
use dyad.Prelude.{
  ℕ, ◌-◌, ◌<◌, ◌≡◌, ◌≢◌, refl, ap, sym, ◌∙◌, Bool, true, false, List, [], ◌∷◌, ◌++◌, arith, ◌==◌,
  inl, inr, ◌⊎◌, Bool-cases,
}
use dyad.Core.Codes.{rc_ok}
use dyad.Service.{WorkItem}
use dyad.Service.Pool.{
  Job, Phase, waiting, processing, sending, pushing, waking, exited, Reactor, running, draining,
  drained, finishing, joining, stopped, Pool, set_phase, Meets, wait_part, send_part, wake_part,
  worker_part, wakes, loop_part, reactor_part, Reaches, started,
}
use dyad.Service.Pool.Weights.{
  sum_to-eq_zero, on_jobs, on_phase, on_reactor, weight, present, open_for, times, responses,
  settlements,
}
use dyad.Service.Pool.Reached.{Reaches-Balanced}
use dyad.Service.Pool.Wakeups.{wakers, takes, Reaches-Awake}
use dyad.Service.Pool.Shutdown.{is_over, Ordered, Reaches-Ordered}

-- No part of a worker changes the pool, whatever it meets, and no event on the pipe does.
pub record IsQuiet (s : Pool) : Type 0 where
  pub workers : (m : Meets) (i : ℕ) → i < s.num_fetch_workers → worker_part m i (s.workers i) s ≡ s
  pub reactor : (bytes : ℕ) → reactor_part wakes bytes s.reactor s ≡ s

abbrev phase_in : ℕ → Pool → Phase
phase_in i s = s.workers i

phase_in-set : (i : ℕ) (p : Phase) (s : Pool) → phase_in i (set_phase i p s) ≡ p
phase_in-set i p s = ground arith

module _ (item : WorkItem) (i : ℕ) (s : Pool) where
  abbrev met : Meets
  met = record { item = item; saved_errno = 0; sent = rc_ok; interrupted = false }

  -- A part that changes the phase changes the pool.
  changed : (p p' : Phase) (t : Pool) → s.workers i ≡ p → phase_in i t ≡ p' → t ≡ s → p' ≡ p
  changed p p' t e here same = sym here ∙ ap (phase_in i) same ∙ e

  quiet_wait : (js : List Job) → s.workers i ≡ waiting → wait_part i js s ≡ s → js ≡ []
  quiet_wait [] e h = refl
  quiet_wait (j ∷ rest) e h =
      let k = changed waiting (processing j) (wait_part i (j ∷ rest) s) e (ground arith) h in cc

  send_part-phase : (j : Job) → (j' : Job) × (phase_in i (send_part rc_ok i j s) ≡ pushing j')
  send_part-phase j = elim (Bool-cases s.send_detached_is_thread_safe) [
    | inr e ↦ (j, ground (arith, e))
    | inl e ↦ (record j { req_state = false }, ground (arith, e))
  ]

  wake_part-phase : phase_in i (wake_part false i s) ≡ waiting
  wake_part-phase = ground arith

  -- A worker at rest waits with nothing queued, or has returned.
  pub at_rest :
      (p : Phase)
      → s.workers i ≡ p
      → worker_part met i p s ≡ s
      → ((s.workers i ≡ waiting) × (s.work ≡ [])) ⊎ (s.workers i ≡ exited)
  unfolding worker_part
  at_rest waiting e h = inl (e, quiet_wait s.work e h)
  at_rest (processing j) e h =
      let k =
        changed (processing j) _ _ e
          (phase_in-set i (sending (record j { item = item; saved_errno = 0 })) s) h in
      cc
  at_rest (sending j) e h =
      let (j', there) = send_part-phase j in
      let k = changed (sending j) (pushing j') _ e there h in cc
  at_rest (pushing j) e h =
      let k =
        changed (pushing j) waking _ e
          (phase_in-set i waking (record s { completions = s.completions ++ j ∷ [] })) h in
      cc
  at_rest waking e h = let k = changed waking waiting _ e wake_part-phase h in cc
  at_rest exited e h = inr e

module _ (s : Pool) where
  reactor_of : (t : Pool) (r r' : Reactor) → s.reactor ≡ r → t.reactor ≡ r' → t ≡ s → r' ≡ r
  reactor_of t r r' e here same = sym here ∙ ap (λ (x : Pool). x.reactor) same ∙ e

  longer : (j : Job) (rest : List Job) → rest ≢ j ∷ rest
  longer j rest h = absurd (omega (arith, ap (on_jobs (λ _. 1)) h))

  -- A reactor thread at rest is in the event loop with an empty pipe, or over.
  pub reactor_at_rest :
      (r : Reactor)
      → s.reactor ≡ r
      → reactor_part wakes 0 r s ≡ s
      → ((r ≡ running) × (s.completion_pipe ≡ 0)) ⊎ (is_over r ≡ true)
  unfolding reactor_part
  reactor_at_rest running e h = elim (Bool-cases (s.completion_pipe == 0)) [
    | inl k ↦ inl (refl, ground (arith, k))
    | inr k ↦
        let there : (loop_part wakes s).reactor ≡ draining = ground (arith, k) in
        let x = reactor_of (loop_part wakes s) running draining e there h in cc
  ]
  reactor_at_rest draining e h = elim (Bool-cases (s.completion_pipe == 0)) [
    | inl k ↦
        let there : (reactor_part wakes 0 draining s).reactor ≡ drained = ground (arith, k) in
        let x = reactor_of _ draining drained e there h in cc
    | inr k ↦
        let there : (reactor_part wakes 0 draining s).completion_pipe ≡ s.completion_pipe - 1 =
          ground (arith, k) in
        absurd (ground (arith, there, ap (λ (x : Pool). x.completion_pipe) h, k))
  ]
  reactor_at_rest drained e h =
      let x = reactor_of _ drained (finishing s.completions) e refl h in cc
  reactor_at_rest (finishing []) e h = let x = reactor_of _ (finishing []) running e refl h in cc
  reactor_at_rest (finishing (j ∷ rest)) e h =
      let x = reactor_of _ (finishing (j ∷ rest)) (finishing rest) e refl h in
      absurd (omega (arith, ap (on_reactor (λ _. 1)) x))
  reactor_at_rest joining e h = inr refl
  reactor_at_rest stopped e h = inr refl

module _ {safe : Bool} {capacity n : ℕ} (t : Pool) (item : WorkItem) (room : 0 < capacity)
    (r : Reaches (started safe capacity n) t) (quiet : IsQuiet t)
    (some_worker : 0 < t.num_fetch_workers) (up : t.workers_shutdown ≡ false) where
  ordered : Ordered t
  ordered = Reaches-Ordered r

  waits : (i : ℕ) → i < t.num_fetch_workers → (t.workers i ≡ waiting) × (t.work ≡ [])
  waits i lt = elim (at_rest item i t (t.workers i) refl (quiet.workers (met item i t) i lt)) [
    | inl w ↦ w
    | inr e ↦ let shut = (ordered.exits i e).0 in absurd (false_ne_true (sym up ∙ shut))
  ]
    where
      false_ne_true : false ≢ true
      false_ne_true h = cc

  loops : (t.reactor ≡ running) × (t.completion_pipe ≡ 0)
  loops = elim (reactor_at_rest t t.reactor refl (quiet.reactor 0)) [
    | inl w ↦ w
    | inr e ↦ let told = ordered.told in absurd (not_both (sym up ∙ sym told ∙ e))
  ]
    where
      not_both : false ≢ true
      not_both h = cc

  none_finished : t.completions ≡ []
  none_finished = elim (Reaches-Awake room r) [
    | inl e ↦ e
    | inr awake ↦ absurd (
        omega (
          arith,
          awake,
          loops.1,
          ap takes loops.0,
          sum_to-eq_zero wakers t.num_fetch_workers t.workers (λ i lt. ap wakers (waits i lt).0),
        ))
  ]

  nothing_left : (w : Job → ℕ) → weight w t ≡ 0
  nothing_left w = omega (
    arith,
    ap (on_jobs w) (waits 0 some_worker).1,
    ap (on_jobs w) none_finished,
    ap (on_reactor w) loops.0,
    sum_to-eq_zero (on_phase w) t.num_fetch_workers t.workers
        (λ i lt. ap (on_phase w) (waits i lt).0),
  )

  -- A pool that has workers and is not shut down, reached from its start by parts of its threads in
  -- any order, where no thread can go on: each request that was queued has been answered exactly once,
  -- and its detached request sent or aborted exactly once. The pipe holds at least a byte.
  pub quiet_lem :
      (msg : ℕ)
      → (responses msg t.log ≡ times msg t.accepted)
        × (settlements msg t.log ≡ times msg t.accepted)
  quiet_lem msg = (
    omega (arith, (Reaches-Balanced r).answered msg, nothing_left (present msg)),
    omega (arith, (Reaches-Balanced r).settled msg, nothing_left (open_for msg)),
  )
