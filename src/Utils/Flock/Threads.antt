-- ===== src/Utils/Flock/Threads.antt =====
-- Threads of one process share its lock: what the release by one of them does to the others.
use dyad.Prelude.{
  ℕ, zero, suc, ◌-◌, true, false, ◌==◌, ◌≡◌, ◌≢◌, refl, [], ◌∷◌, arith, if◌then◌else◌,
}
use dyad.Core.Codes.{rc_ok, rc_busy, is_error}
use dyad.Utils.Flock.{
  f_rdlck, f_wrlck, Locks, allowed, without, Outcome, returns, waits, dyad_shared_flock,
  dyad_try_excl_flock, dyad_release_flock,
}

-- A process whose threads call; `holding` counts those whose last answer is DYAD_RC_OK for a shared
-- lock that they have not released.
pub record Process : Type 0 where
  pub locks : Locks
  pub holding : ℕ

abbrev granted : Outcome → Process → Process
granted waits p = p
granted (returns locks rc) p =
    if is_error rc
    then record p { locks = locks }
    else record { locks = locks; holding = suc p.holding }

abbrev released : Outcome → Process → Process
released waits p = p
released (returns locks rc) p =
    if is_error rc
    then record p { locks = locks }
    else record { locks = locks; holding = p.holding - 1 }

abbrev thread_takes : ℕ → Process → Process
thread_takes pid p = granted (dyad_shared_flock pid true false p.locks) p

abbrev pub thread_releases : ℕ → Process → Process
thread_releases pid p = released (dyad_release_flock pid true false p.locks) p

-- So many threads of the process take the shared lock, one behind the other.
unfoldable pub threads_take : ℕ → ℕ → Process → Process
threads_take pid zero p = p
threads_take pid (suc n) p = thread_takes pid (threads_take pid n p)

abbrev pub no_thread : Process
no_thread = record { locks = []; holding = 0 }

threads_take_lem :
    (pid n : ℕ)
    → threads_take pid (suc n) no_thread ≡ record { locks = (pid, f_rdlck) ∷ []; holding = suc n }
unfolding threads_take dyad_shared_flock allowed without
threads_take_lem pid zero = refl
threads_take_lem pid (suc n) =
    let own : (pid == pid) ≡ true = ground arith in rw (threads_take_lem pid n, own) refl

-- On a file that had no lock, one or more threads of a process take the shared lock, and each is
-- answered DYAD_RC_OK. Then another process gets the shared lock too, and its dyad_try_excl_flock
-- answers DYAD_RC_BUSY; but when one of
-- the threads has released its lock, and the others hold theirs, it answers DYAD_RC_OK, and the other
-- process alone has a lock.
pub threads_take-releases :
    (pid other n : ℕ)
    → other ≢ pid
    → let p = threads_take pid (suc n) no_thread in
      let q = thread_releases pid p in
      (p.holding ≡ suc n)
      × (dyad_shared_flock other true false p.locks ≡ returns ((other, f_rdlck) ∷ p.locks) rc_ok)
      × (dyad_try_excl_flock other true false p.locks ≡ returns p.locks rc_busy)
      × (q.holding ≡ n)
      × (dyad_try_excl_flock other true false q.locks ≡ returns ((other, f_wrlck) ∷ []) rc_ok)
unfolding dyad_shared_flock dyad_release_flock dyad_try_excl_flock allowed without
threads_take-releases pid other n differs =
    let own : (pid == pid) ≡ true = ground arith in
    let apart : (pid == other) ≡ false = ground (arith, differs) in
    rw (threads_take_lem pid n, own, apart) (refl, refl, refl, omega arith, refl)
