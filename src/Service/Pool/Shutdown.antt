-- ===== src/Service/Pool/Shutdown.antt =====
-- The shutdown of the pool: `dyad_fetch_pool_stop` and what it leaves.
use dyad.Prelude.{
  ℕ, zero, suc, ◌+◌, ◌<◌, ◌≡◌, ◌≢◌, refl, ap, sym, ◌∙◌, subst, Bool, true, false, not, List, [],
  ◌∷◌, ◌++◌, arith, ltb, ◌==◌, if-lem, inl, inr, Bool-cases,
}
use dyad.Core.Codes.{is_error}
use dyad.Service.Pool.{
  Job, Event, sent, aborted, Phase, waiting, processing, sending, pushing, waking, exited, Reactor,
  running, draining, drained, finishing, joining, stopped, Pool, set_phase, Meets, wait_part,
  after_send, worker_part, Happens, queues, wakes, returns, finish_events, reactor_part, has_exited,
  all_exited, Moves, by_worker, by_reactor, Reaches, none_yet, and_then, started,
}
use dyad.Service.Pool.Weights.{
  sum_to-eq_zero, on_jobs, on_phase, on_reactor, present, times, responses,
}
use dyad.Service.Pool.Reached.{Reaches-Balanced}

abbrev pub is_over : Reactor → Bool
is_over joining = true
is_over stopped = true
is_over running = false
is_over draining = false
is_over drained = false
is_over (finishing js) = false

-- The workers are told to return when the event loop has, a worker returns with no work left, and the
-- join waits for all.
pub record Ordered (s : Pool) : Type 0 where
  pub told : is_over s.reactor ≡ s.workers_shutdown
  pub exits : (k : ℕ) → s.workers k ≡ exited → (s.workers_shutdown ≡ true) × (s.work ≡ [])
  pub joined : s.reactor ≡ stopped → all_exited s.num_fetch_workers s.workers ≡ true

pub all_exited-at : (n : ℕ) (f : ℕ → Phase) → all_exited n f ≡ true → (i : ℕ) → i < n → f i ≡ exited
unfolding all_exited
all_exited-at zero f h i lt = absurd (omega arith)
all_exited-at (suc n) f h i lt = elim (Bool-cases (i == n)) [
  | inl e ↦
      let same : i ≡ n = ground (arith, e) in
      subst (λ k. f k ≡ exited) (sym same) (phase_of (f n) (ground arith))
  | inr e ↦ all_exited-at n f (ground arith) i (ground (arith, e))
]
  where
    phase_of : (p : Phase) → has_exited p ≡ true → p ≡ exited
    phase_of exited k = refl
    phase_of waiting k = cc
    phase_of (processing j) k = cc
    phase_of (sending j) k = cc
    phase_of (pushing j) k = cc
    phase_of waking k = cc

module _ (i : ℕ) (s : Pool) (below : i < s.num_fetch_workers) (o : Ordered s) where
  not_stopped : (p : Phase) → s.workers i ≡ p → p ≢ exited → s.reactor ≢ stopped
  not_stopped p e not_exited h =
      not_exited (sym e ∙ all_exited-at s.num_fetch_workers s.workers (o.joined h) i below)

  -- A worker goes on and leaves the work queue alone.
  goes_on :
      (p p' : Phase) (completions : List Job) (pipe : ℕ) (log : List Event)
      → s.workers i ≡ p
      → p ≢ exited
      → p' ≢ exited
      → Ordered (
          set_phase i p'
            (record s { completions = completions; completion_pipe = pipe; log = log }))
  goes_on p p' completions pipe log e before after = record {
    told = o.told;
    exits = λ k.
        if-lem (λ x. x ≡ exited → (s.workers_shutdown ≡ true) × (s.work ≡ [])) (i == k)
          (λ _ h. absurd (after h)) (λ _ h. o.exits k h);
    joined = λ h. absurd (not_stopped p e before h);
  }

  wait_part-Ordered :
      (js : List Job) → s.workers i ≡ waiting → s.work ≡ js → Ordered (wait_part i js s)
  wait_part-Ordered [] e e' =
      if-lem Ordered s.workers_shutdown
        (λ shut. record {
          told = o.told;
          exits = λ k h. (shut, e');
          joined = λ h. absurd (not_stopped waiting e (λ x. cc) h);
        })
        (λ _. o)
  wait_part-Ordered (j ∷ rest) e e' = record {
    told = o.told;
    exits = λ k.
        if-lem (λ x. x ≡ exited → (s.workers_shutdown ≡ true) × (rest ≡ [])) (i == k) (λ _ h. cc)
          (λ _ h. absurd (no_work k h));
    joined = λ h. absurd (not_stopped waiting e (λ x. cc) h);
  }
    where
      no_work : (k : ℕ) → s.workers k ≡ exited → ⊥
      no_work k h = let left = (o.exits k h).1 in cc

  pub worker_part-Ordered :
      (m : Meets) (p : Phase) → s.workers i ≡ p → Ordered (worker_part m i p s)
  unfolding worker_part
  worker_part-Ordered m waiting e = wait_part-Ordered s.work e refl
  worker_part-Ordered m (processing j) e =
      goes_on (processing j) (sending (record j { item = m.item; saved_errno = m.saved_errno }))
        s.completions s.completion_pipe s.log e (λ x. cc) (λ x. cc)
  worker_part-Ordered m (sending j) e =
      if-lem Ordered (not s.send_detached_is_thread_safe)
        (λ _.
          goes_on (sending j) (pushing j) s.completions s.completion_pipe s.log e (λ x. cc)
            (λ x. cc))
        (λ _.
          if-lem Ordered (is_error j.item.rc)
            (λ _.
              goes_on (sending j) (pushing (record j { req_state = false })) s.completions
                s.completion_pipe (aborted j.msg ∷ s.log) e (λ x. cc) (λ x. cc))
            (λ _.
              goes_on (sending j) (pushing (after_send m.sent j)) s.completions s.completion_pipe
                (sent j.msg j.item.inbuf ∷ s.log) e (λ x. cc) (λ x. cc)))
  worker_part-Ordered m (pushing j) e =
      goes_on (pushing j) waking (s.completions ++ j ∷ []) s.completion_pipe s.log e (λ x. cc)
        (λ x. cc)
  worker_part-Ordered m waking e =
      if-lem Ordered m.interrupted (λ _. o)
        (λ _.
          if-lem Ordered (ltb s.completion_pipe s.pipe_capacity)
            (λ _.
              goes_on waking waiting s.completions (s.completion_pipe + 1) s.log e (λ x. cc)
                (λ x. cc))
            (λ _.
              goes_on waking waiting s.completions s.completion_pipe s.log e (λ x. cc) (λ x. cc)))
  worker_part-Ordered m exited e = o

module _ (s : Pool) (o : Ordered s) where
  -- The reactor thread goes on, over as it was before.
  stays :
      (r r' : Reactor) (completions : List Job) (pipe : ℕ) (log : List Event)
      → s.reactor ≡ r
      → is_over r' ≡ is_over r
      → (r' ≡ stopped → all_exited s.num_fetch_workers s.workers ≡ true)
      → Ordered
          (record s { reactor = r'; completions = completions; completion_pipe = pipe; log = log })
  stays r r' completions pipe log e same all = record {
    told = same ∙ ap is_over (sym e) ∙ o.told;
    exits = o.exits;
    joined = all;
  }

  pub reactor_part-Ordered :
      (h : Happens) (bytes : ℕ) (r : Reactor) → s.reactor ≡ r → Ordered (reactor_part h bytes r s)
  unfolding reactor_part
  reactor_part-Ordered (queues msg item) bytes running e =
      if-lem Ordered (ltb 0 s.num_fetch_workers)
        (λ _. record {
          told = o.told;
          exits = λ k h. let told = ap is_over (sym e) ∙ o.told in let shut = (o.exits k h).0 in cc;
          joined = o.joined;
        })
        (λ _. o)
  reactor_part-Ordered wakes bytes running e =
      if-lem Ordered (s.completion_pipe == 0) (λ _. o)
        (λ _. stays running draining s.completions s.completion_pipe s.log e refl (λ x. cc))
  reactor_part-Ordered returns bytes running e = record {
    told = refl;
    exits = λ k h. (refl, (o.exits k h).1);
    joined = λ x. cc;
  }
  reactor_part-Ordered h bytes draining e =
      if-lem Ordered (s.completion_pipe == 0)
        (λ _. stays draining drained s.completions s.completion_pipe s.log e refl (λ x. cc))
        (λ _. record { told = o.told; exits = o.exits; joined = o.joined })
  reactor_part-Ordered h bytes drained e =
      stays drained (finishing s.completions) [] s.completion_pipe s.log e refl (λ x. cc)
  reactor_part-Ordered h bytes (finishing []) e =
      stays (finishing []) running s.completions s.completion_pipe s.log e refl (λ x. cc)
  reactor_part-Ordered h bytes (finishing (j ∷ rest)) e =
      stays (finishing (j ∷ rest)) (finishing rest) s.completions s.completion_pipe
        (finish_events j s.log) e refl (λ x. cc)
  reactor_part-Ordered h bytes joining e =
      if-lem Ordered (all_exited s.num_fetch_workers s.workers)
        (λ all. stays joining stopped s.completions s.completion_pipe s.log e refl (λ _. all))
        (λ _. o)
  reactor_part-Ordered h bytes stopped e = o

Moves-Ordered : {s t : Pool} → Moves s t → Ordered s → Ordered t
Moves-Ordered {s} (by_worker m i below) o = worker_part-Ordered i s below o m (s.workers i) refl
Moves-Ordered {s} (by_reactor h bytes) o = reactor_part-Ordered s o h bytes s.reactor refl

pub Reaches-Ordered :
    {safe : Bool} {capacity n : ℕ} {t : Pool} → Reaches (started safe capacity n) t → Ordered t
Reaches-Ordered none_yet = record { told = refl; exits = λ k h. cc; joined = λ h. cc }
Reaches-Ordered (and_then r m) = Moves-Ordered m (Reaches-Ordered r)

-- When `dyad_fetch_pool_stop` is through, every request that was queued has been answered once, but
-- for those whose items are on the completion queue, which nothing takes any more. A pool has at
-- least a worker.
pub stopped_lem :
    {safe : Bool} {capacity n : ℕ} {t : Pool}
    → Reaches (started safe capacity n) t
    → t.reactor ≡ stopped
    → 0 < t.num_fetch_workers
    → (msg : ℕ) → responses msg t.log + on_jobs (present msg) t.completions ≡ times msg t.accepted
stopped_lem {t} r over some_worker msg = omega (
  arith,
  (Reaches-Balanced r).answered msg,
  ap (on_jobs (present msg)) ((Reaches-Ordered r).exits 0 (exits 0 some_worker)).1,
  sum_to-eq_zero (on_phase (present msg)) t.num_fetch_workers t.workers
      (λ i lt. ap (on_phase (present msg)) (exits i lt)),
  ap (on_reactor (present msg)) over,
)
  where
    exits : (i : ℕ) → i < t.num_fetch_workers → t.workers i ≡ exited
    exits = all_exited-at t.num_fetch_workers t.workers ((Reaches-Ordered r).joined over)
