-- ===== src/Utils/Flock.antt =====
-- The locks on a whole file: `dyad_excl_flock`, `dyad_try_excl_flock`, `dyad_shared_flock` and
-- `dyad_release_flock` of dyad/utils/utils.c, over the record locks of POSIX, which belong to a
-- process: a lock that a process takes replaces the one it has, and closing any descriptor of the file
-- gives it up.
pub mod Excludes
pub mod Excluded
pub mod Threads
mod Tests
use dyad.Prelude.{ℕ, Bool, true, false, not, ◌&&◌, ◌||◌, List, [], ◌∷◌, ◌≡◌, ◌==◌, if◌then◌else◌}
use dyad.Core.Codes.{Rc, rc_ok, rc_badfio, rc_busy}

-- F_RDLCK and F_WRLCK
pub data LockType : Type 0 where
  f_rdlck : LockType
  f_wrlck : LockType

-- The processes that hold a lock on the file.
abbrev pub Locks : Type 0
Locks = List (ℕ × LockType)

abbrev pub compatible : LockType → LockType → Bool
compatible f_rdlck f_rdlck = true
compatible f_rdlck f_wrlck = false
compatible f_wrlck l_type = false

unfoldable pub allowed : LockType → ℕ → Locks → Bool
allowed l_type pid [] = true
allowed l_type pid ((holder, held) ∷ locks) =
    ((holder == pid) || compatible l_type held) && allowed l_type pid locks

-- F_UNLCK
unfoldable pub without : ℕ → Locks → Locks
without pid [] = []
without pid ((holder, held) ∷ locks) =
    let rest = without pid locks in if holder == pid then rest else (holder, held) ∷ rest

abbrev pub with_lock : ℕ → LockType → Locks → Locks
with_lock pid l_type locks = (pid, l_type) ∷ without pid locks

-- How a call goes on: it returns, or it waits for other processes.
pub data Outcome : Type 0 where
  returns : Locks → Rc → Outcome
  waits : Outcome

-- `fcntl (fd, F_SETLKW, lock)`, which answers -1 if `fails`.
abbrev pub setlkw : LockType → ℕ → Bool → Locks → Outcome
setlkw l_type pid fails locks =
    if fails
    then returns locks rc_badfio
    else if allowed l_type pid locks
    then returns (with_lock pid l_type locks) rc_ok
    else waits

-- `has_lock` is false for a `lock` that is NULL, and `fails` is what `fcntl` answers for another
-- reason than a lock in its way.
unfoldable pub dyad_excl_flock : ℕ → Bool → Bool → Locks → Outcome
dyad_excl_flock pid has_lock fails locks =
    if not has_lock then returns locks rc_badfio else setlkw f_wrlck pid fails locks

-- `fcntl (fd, F_SETLK, lock)` answers EAGAIN or EACCES for a lock in its way.
unfoldable pub dyad_try_excl_flock : ℕ → Bool → Bool → Locks → Outcome
dyad_try_excl_flock pid has_lock fails locks =
    if not has_lock
    then returns locks rc_badfio
    else if fails
    then returns locks rc_badfio
    else if allowed f_wrlck pid locks
    then returns (with_lock pid f_wrlck locks) rc_ok
    else returns locks rc_busy

unfoldable pub dyad_shared_flock : ℕ → Bool → Bool → Locks → Outcome
dyad_shared_flock pid has_lock fails locks =
    if not has_lock then returns locks rc_badfio else setlkw f_rdlck pid fails locks

unfoldable pub dyad_release_flock : ℕ → Bool → Bool → Locks → Outcome
dyad_release_flock pid has_lock fails locks =
    if not has_lock
    then returns locks rc_badfio
    else if fails
    then returns locks rc_badfio
    else returns (without pid locks) rc_ok

pub data Call : Type 0 where
  excl : Call
  try_excl : Call
  shared : Call
  release : Call
  closes : Call

abbrev pub call_part : Call → ℕ → Bool → Bool → Locks → Outcome
call_part excl = dyad_excl_flock
call_part try_excl = dyad_try_excl_flock
call_part shared = dyad_shared_flock
call_part release = dyad_release_flock
call_part closes = λ pid has_lock fails locks. returns (without pid locks) rc_ok

-- A call of any process returns.
pub data Moves (locks : Locks) : Locks → Type 0 where
  call_returns :
      (call : Call) (pid : ℕ) (has_lock fails : Bool) {locks' : Locks} (rc : Rc)
      → call_part call pid has_lock fails locks ≡ returns locks' rc
      → Moves locks locks'

pub data Reaches (locks : Locks) : Locks → Type 0 where
  none_yet : Reaches locks locks
  and_then : {u v : Locks} → Reaches locks u → Moves u v → Reaches locks v
