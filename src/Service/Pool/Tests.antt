-- ===== src/Service/Pool/Tests.antt =====
-- A pool of one worker that serves the message 7, and one that is shut down before it has.
use dyad.Prelude.{ℕ, zero, suc, ◌+◌, ◌<◌, ◌≡◌, ◌⊎◌, refl, false, List, [], ◌∷◌, none, arith}
use native.Mathlib.Decide.{dec_lt}
use dyad.Core.Codes.{rc_ok, rc_badfio}
use dyad.Service.{WorkItem}
use dyad.Service.Pool.{
  sent, responded, Pool, Meets, stopped, worker_part, Happens, queues, wakes, returns, reactor_part,
  all_exited, by_worker, by_reactor, Reaches, none_yet, and_then, started, enodata,
}
use dyad.Service.Pool.Weights.{present, times, responses, settlements, on_jobs}
use dyad.Service.Pool.Wakeups.{wakeups, Reaches-Awake}
use dyad.Service.Pool.Shutdown.{stopped_lem}
use dyad.Service.Pool.Quiet.{IsQuiet, quiet_lem}

abbrev asked : WorkItem
asked = record {
  fullpath = b'/' ∷ b'l' ∷ [];
  origin_fullpath = none;
  offset = 0;
  range_length = 2;
  inbuf = [];
  rc = rc_badfio;
  range_len = 0;
}

abbrev served : WorkItem
served = record asked { inbuf = 8 ∷ 9 ∷ []; rc = rc_ok; range_len = 2 }

abbrev meets : Meets
meets = record { item = served; saved_errno = 0; sent = rc_ok; interrupted = false }

-- The turns of the threads.
data Turn : Type 0 where
  of_worker : Turn
  of_reactor : Happens → Turn

abbrev first : Pool
first = started false 16 1

record Ran : Type 0 where
  last : Pool
  reach : Reaches first last

take_turn : Ran → Turn → Ran
unfolding dec_lt
take_turn r of_worker = elim (dec_lt 0 r.last.num_fetch_workers) [
  | yes below ↦ record { last = _; reach = and_then r.reach (by_worker meets 0 below) }
  | no _ ↦ r
]
take_turn r (of_reactor h) = record { last = _; reach = and_then r.reach (by_reactor h 0) }

run : Ran → List Turn → Ran
unfolding take_turn
run r [] = r
run r (t ∷ rest) = run (take_turn r t) rest

abbrev queued : Turn
queued = of_reactor (queues 7 asked)

-- The worker takes, processes, hands over, pushes and wakes; the reactor thread reads the byte, ends
-- its reads, takes the queue, and finishes.
abbrev one_request : List Turn
one_request =
    queued
    ∷ of_worker
    ∷ of_worker
    ∷ of_worker
    ∷ of_worker
    ∷ of_worker
    ∷ of_reactor wakes
    ∷ of_reactor wakes
    ∷ of_reactor wakes
    ∷ of_reactor wakes
    ∷ of_reactor wakes
    ∷ of_reactor wakes
    ∷ []

abbrev done : Ran
done = run (record { last = first; reach = none_yet }) one_request

answers_it : done.last.log ≡ responded 7 enodata ∷ sent 7 (8 ∷ 9 ∷ []) ∷ []
unfolding run worker_part reactor_part
answers_it = refl

done-IsQuiet : IsQuiet done.last
unfolding run worker_part reactor_part
done-IsQuiet = record { workers = λ m i lt. zeroth m i lt; reactor = λ bytes. refl }
  where
    zeroth :
        (m : Meets) (i : ℕ) (lt : i < 1)
        → worker_part m i (done.last.workers i) done.last ≡ done.last
    zeroth m zero lt = refl
    zeroth m (suc i) lt = absurd (omega arith)

quiet_lem_example :
    (responses 7 done.last.log ≡ times 7 done.last.accepted)
    × (settlements 7 done.last.log ≡ times 7 done.last.accepted)
unfolding run worker_part reactor_part
quiet_lem_example =
    quiet_lem done.last asked (omega arith) done.reach done-IsQuiet (omega arith) refl 7

-- The event loop returns with a request queued: the worker serves it, and nothing takes it from the
-- completion queue.
abbrev shut : Ran
shut =
    run (record { last = first; reach = none_yet })
      (queued
        ∷ of_reactor returns
        ∷ of_worker
        ∷ of_worker
        ∷ of_worker
        ∷ of_worker
        ∷ of_worker
        ∷ of_worker
        ∷ of_reactor wakes
        ∷ [])

loses_it : (shut.last.reactor ≡ stopped) × (shut.last.log ≡ []) × (shut.last.accepted ≡ 7 ∷ [])
unfolding run worker_part reactor_part all_exited
loses_it = (refl, refl, refl)

stopped_lem_example :
    responses 7 shut.last.log + on_jobs (present 7) shut.last.completions
    ≡ times 7 shut.last.accepted
unfolding run worker_part reactor_part all_exited
stopped_lem_example = stopped_lem shut.reach refl (omega arith) 7

Reaches-Awake_example : (shut.last.completions ≡ []) ⊎ (0 < wakeups shut.last)
unfolding run worker_part reactor_part all_exited
Reaches-Awake_example = Reaches-Awake (omega arith) shut.reach
