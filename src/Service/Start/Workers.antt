-- ===== src/Service/Start/Workers.antt =====
-- How many workers the pool has, and what is left of it at the end.
use dyad.Prelude.{
  ℕ, zero, suc, ◌+◌, ◌≤◌, ◌<◌, ◌≡◌, refl, subst, ==_iff, ◌⊎◌, inl, inr, Bool, true, false, not,
  ◌&&◌, ◌==◌, Bool-cases, if-lem, arith,
}
use dyad.Core.Codes.{Rc, rc_ok, rc_sysfail}
use dyad.Service.Start.{
  Held, new_held, StartCalls, num_workers, create_workers, count_workers, dyad_fetch_pool_start,
  dyad_fetch_pool_stop, mod_main,
}

-- `n` workers run out of `size`: those before the first that cannot be created.
pub record Counts (create : ℕ → Bool) (from size n : ℕ) : Type 0 where
  pub least : from ≤ n
  pub most : n ≤ size
  pub each : (i : ℕ) → from ≤ i → i < n → create i ≡ true
  pub first : (n ≡ size) ⊎ (create n ≡ false)

-- A worker more in front.
later :
    (create : ℕ → Bool) (i size n : ℕ)
    → create i ≡ true
    → Counts create (i + 1) size n
    → Counts create i size n
later create i size n made c = record {
  least = omega (arith, c.least);
  most = c.most;
  each = (λ j from before. elim (Bool-cases (i == j)) [
    | inl same ↦ subst (λ k. create k ≡ true) ((==_iff i j).0 same) made
    | inr differs ↦ c.each j (ground arith) before
  ]);
  first = c.first;
}

create_workers_lem :
    (n : ℕ) (create : ℕ → Bool) (i : ℕ) → Counts create i (i + n) (create_workers n create i)
unfolding create_workers
create_workers_lem zero create i = record {
  least = omega arith;
  most = omega arith;
  each = (λ j from before. absurd (omega arith));
  first = inl (omega arith);
}
create_workers_lem (suc n) create i = elim (Bool-cases (create i)) [
  | inl made ↦
      let rest = create_workers_lem n create (i + 1) in
      let size : i + 1 + n ≡ i + suc n = omega arith in
      rw (made, create_workers)
        (later create i (i + suc n) (create_workers n create (i + 1)) made (rw size at rest))
  | inr fails ↦
      rw (fails, create_workers)
        (record {
          least = omega arith;
          most = omega arith;
          each = (λ j from before. absurd (omega arith));
          first = inr fails;
        })
]

-- What a start leaves. With DYAD_RC_OK, at least one worker and no more than were asked for, and the
-- pipe and the watcher.
pub record Runs (os : StartCalls) (h : Held) : Type 0 where
  pub some_worker : 0 < h.num_fetch_workers
  pub counts : Counts os.pthread_create 0 (num_workers os.env_workers) h.num_fetch_workers
  pub joined_later : h.threads ≡ h.num_fetch_workers
  pub pipe : h.completion_pipe ≡ true
  pub watcher : h.completion_watcher ≡ true
  pub listed : h.fetch_workers ≡ true

-- The answer of a start: it runs, or there are no workers.
abbrev pub Starts : StartCalls → Held × Rc → Type 0
Starts os r =
    ((r.1 ≡ rc_ok) × Runs os r.0)
    ⊎ ((r.1 ≡ rc_sysfail) × (r.0.num_fetch_workers ≡ 0) × (r.0.threads ≡ 0))

counted :
    (os : StartCalls) (h : Held) (n : ℕ)
    → h.completion_pipe ≡ true
    → h.completion_watcher ≡ true
    → h.threads ≡ 0
    → Counts os.pthread_create 0 (num_workers os.env_workers) n
    → Starts os (count_workers h n)
counted os h zero pipe watcher none_yet c = inr (refl, refl, omega arith)
counted os h (suc n) pipe watcher none_yet c =
    let some_one : (suc n == 0) ≡ false = ground arith in
    inl (
      rw some_one refl,
      record {
        some_worker = omega arith;
        counts = c;
        joined_later = omega arith;
        pipe = pipe;
        watcher = watcher;
        listed = refl;
      },
    )

-- Whatever the calls answer: either the code is DYAD_RC_OK, and at least one worker runs, at most as
-- many as the environment asks for (8 if it asks for none), all of them up to the first that cannot
-- be created; or the code is DYAD_RC_SYSFAIL, and the count of the workers is 0 and none runs, so the
-- requests are served without the pool.
pub dyad_fetch_pool_start_lem : (os : StartCalls) → Starts os (dyad_fetch_pool_start os new_held)
unfolding dyad_fetch_pool_start
dyad_fetch_pool_start_lem os =
    let size = num_workers os.env_workers in
    if-lem (Starts os) os.pipe
      (λ _.
        if-lem (Starts os) os.watcher_create
          (λ _.
            if-lem (Starts os) os.calloc
              (λ _.
                counted os (record new_held { completion_pipe = true; completion_watcher = true })
                  (create_workers size os.pthread_create 0) refl refl refl
                  (subst
                    (λ k. Counts os.pthread_create 0 k (create_workers size os.pthread_create 0))
                    (omega arith) (create_workers_lem size os.pthread_create 0)))
              (λ _. inr (refl, refl, refl)))
          (λ _. inr (refl, refl, refl)))
      (λ _. inr (refl, refl, refl))

-- Behind the whole life of the module, whatever the calls answer: no thread runs, and the array and
-- the pipe are given back. The watcher is left in the reactor exactly when it was created and the
-- array could not be allocated.
pub mod_main_lem :
    (os : StartCalls)
    → ((mod_main os).threads ≡ 0)
      × ((mod_main os).fetch_workers ≡ false)
      × ((mod_main os).completion_pipe ≡ false)
      × ((mod_main os).completion_watcher ≡ os.pipe && (os.watcher_create && not os.calloc))
unfolding dyad_fetch_pool_start dyad_fetch_pool_stop mod_main
mod_main_lem os = elim (Bool-cases os.pipe) [
  | inr no_pipe ↦ rw (no_pipe, mod_main) (refl, refl, refl, refl)
  | inl piped ↦ elim (Bool-cases os.watcher_create) [
    | inr no_watcher ↦ rw (piped, no_watcher, mod_main) (refl, refl, refl, refl)
    | inl watched ↦ elim (Bool-cases os.calloc) [
      | inr no_array ↦ rw (piped, watched, no_array, mod_main) (refl, refl, refl, refl)
      | inl array ↦ rw (piped, watched, array, mod_main) (omega arith, refl, refl, refl)
    ]
  ]
]
