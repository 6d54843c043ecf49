-- ===== src/Service/Pool/Weights.antt =====
-- Counts of the jobs of a pool, over its queues and its threads.
use dyad.Prelude.{
  ℕ, zero, suc, ◌+◌, ◌≤◌, ◌<◌, ◌≡◌, refl, Bool, ◌&&◌, List, [], ◌∷◌, ◌++◌, arith, ◌==◌,
  if◌then◌else◌, inl, inr, Bool-cases,
}
use dyad.Service.Pool.{
  Job, Event, sent, aborted, responded, Phase, waiting, processing, sending, pushing, waking,
  exited, Reactor, running, draining, drained, finishing, joining, stopped, Pool, update,
}

module _ (w : Phase → ℕ) where
  pub sum_to : ℕ → (ℕ → Phase) → ℕ
  sum_to zero f = 0
  sum_to (suc n) f = sum_to n f + w (f n)

  sum_to-update_of_le :
      (n : ℕ) (f : ℕ → Phase) (i : ℕ) (p : Phase) → n ≤ i → sum_to n (update f i p) ≡ sum_to n f
  unfolding sum_to
  sum_to-update_of_le zero f i p h = refl
  sum_to-update_of_le (suc n) f i p h = ground (arith, sum_to-update_of_le n f i p)

  -- A worker that changes its phase changes the sum by its own share.
  pub sum_to-update :
      (n : ℕ) (f : ℕ → Phase) (i : ℕ) (p : Phase)
      → i < n
      → sum_to n (update f i p) + w (f i) ≡ sum_to n f + w p
  unfolding sum_to
  sum_to-update zero f i p h = absurd (omega arith)
  sum_to-update (suc n) f i p h = elim (Bool-cases (i == n)) [
    | inl e ↦ ground (arith, sum_to-update_of_le n f i p)
    | inr e ↦ ground (arith, sum_to-update n f i p)
  ]

  pub sum_to-eq_zero : (n : ℕ) (f : ℕ → Phase) → ((i : ℕ) → i < n → w (f i) ≡ 0) → sum_to n f ≡ 0
  unfolding sum_to
  sum_to-eq_zero zero f h = refl
  sum_to-eq_zero (suc n) f h =
      omega (arith, h n (omega arith), sum_to-eq_zero n f (λ i lt. h i (omega arith)))

module _ (w : Job → ℕ) where
  abbrev pub on_jobs : List Job → ℕ
  on_jobs [] = 0
  on_jobs (j ∷ rest) = w j + on_jobs rest

  pub on_jobs-snoc : (js : List Job) (j : Job) → on_jobs (js ++ j ∷ []) ≡ on_jobs js + w j
  on_jobs-snoc [] j = omega arith
  on_jobs-snoc (x ∷ js) j = omega (arith, on_jobs-snoc js j)

  abbrev pub on_phase : Phase → ℕ
  on_phase (processing j) = w j
  on_phase (sending j) = w j
  on_phase (pushing j) = w j
  on_phase waiting = 0
  on_phase waking = 0
  on_phase exited = 0

  abbrev pub on_reactor : Reactor → ℕ
  on_reactor (finishing js) = on_jobs js
  on_reactor running = 0
  on_reactor draining = 0
  on_reactor drained = 0
  on_reactor joining = 0
  on_reactor stopped = 0

  -- All the jobs of a pool.
  abbrev pub weight : Pool → ℕ
  weight s =
      on_jobs s.work
      + sum_to on_phase s.num_fetch_workers s.workers
      + on_jobs s.completions
      + on_reactor s.reactor

abbrev pub bit : Bool → ℕ
bit b = if b then 1 else 0

-- The jobs of a message, and those whose request is still detached.
abbrev pub present : ℕ → Job → ℕ
present msg j = bit (j.msg == msg)

abbrev pub open_for : ℕ → Job → ℕ
open_for msg j = bit (j.msg == msg && j.req_state)

abbrev pub times : ℕ → List ℕ → ℕ
times msg [] = 0
times msg (x ∷ xs) = bit (x == msg) + times msg xs

abbrev pub responds : ℕ → Event → ℕ
responds msg (responded m errno) = bit (m == msg)
responds msg (sent m bytes) = 0
responds msg (aborted m) = 0

abbrev pub settles : ℕ → Event → ℕ
settles msg (responded m errno) = 0
settles msg (sent m bytes) = bit (m == msg)
settles msg (aborted m) = bit (m == msg)

-- The answers that closed the stream of a message.
abbrev pub responses : ℕ → List Event → ℕ
responses msg [] = 0
responses msg (e ∷ log) = responds msg e + responses msg log

-- The sends and aborts of its request.
abbrev pub settlements : ℕ → List Event → ℕ
settlements msg [] = 0
settlements msg (e ∷ log) = settles msg e + settlements msg log
