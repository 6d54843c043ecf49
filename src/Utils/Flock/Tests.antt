-- ===== src/Utils/Flock/Tests.antt =====
-- The service, process 1, serves a file by two threads; process 2 is the evictor of the cache.
use dyad.Prelude.{ℕ, true, false, ◌≡◌, ◌≢◌, arith, refl, inl, [], ◌∷◌}
use dyad.Core.Codes.{rc_ok, rc_busy, rc_badfio}
use dyad.Utils.Flock.{
  f_rdlck, f_wrlck, Locks, allowed, without, returns, waits, dyad_excl_flock, dyad_try_excl_flock,
  dyad_shared_flock, try_excl, none_yet,
}
use dyad.Utils.Flock.Excluded.{OthersReach, no_others, and_other, Excluded, Reaches-Excluded}
use dyad.Utils.Flock.Threads.{threads_take, thread_releases, no_thread, threads_take-releases}

abbrev serving : Locks
serving = (1, f_rdlck) ∷ []

abbrev writing : Locks
writing = (1, f_wrlck) ∷ []

-- Both threads have taken the shared lock.
shared_twice : dyad_shared_flock 1 true false serving ≡ returns serving rc_ok
unfolding allowed without dyad_shared_flock
shared_twice = refl

busy : dyad_try_excl_flock 2 true false serving ≡ returns serving rc_busy
unfolding allowed without dyad_try_excl_flock
busy = refl

waiting : dyad_excl_flock 2 true false serving ≡ waits
unfolding allowed without dyad_excl_flock
waiting = refl

no_lock : dyad_excl_flock 2 false false serving ≡ returns serving rc_badfio
unfolding dyad_excl_flock
no_lock = refl

taken : dyad_excl_flock 1 true false [] ≡ returns writing rc_ok
unfolding allowed without dyad_excl_flock
taken = refl

two : ◌≢◌ {A = ℕ} 2 1
two h = absurd (omega (arith, h))

-- Process 2 tries.
tried : OthersReach 1 writing writing
unfolding allowed without dyad_try_excl_flock
tried = and_other try_excl 2 true false rc_busy no_others two refl

Reaches-Excluded_example : Excluded 1 writing
Reaches-Excluded_example = Reaches-Excluded 1 true false none_yet (inl taken) tried

threads_take-releases_example :
    let p = threads_take 1 2 no_thread in
    let q = thread_releases 1 p in
    (p.holding ≡ 2)
    × (dyad_shared_flock 2 true false p.locks ≡ returns ((2, f_rdlck) ∷ p.locks) rc_ok)
    × (dyad_try_excl_flock 2 true false p.locks ≡ returns p.locks rc_busy)
    × (q.holding ≡ 1)
    × (dyad_try_excl_flock 2 true false q.locks ≡ returns ((2, f_wrlck) ∷ []) rc_ok)
threads_take-releases_example = threads_take-releases 1 2 1 two
