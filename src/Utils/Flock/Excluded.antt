-- ===== src/Utils/Flock/Excluded.antt =====
-- A call that has taken the write lock keeps every other process out, as long as only others call.
use dyad.Prelude.{
  ℕ, Bool, true, false, not, ◌==◌, ◌≡◌, ◌≢◌, refl, sym, subst, ◌⊎◌, inl, inr, [], ◌∷◌, arith,
  if-lem, Bool-cases,
}
use dyad.Core.Codes.{Rc, rc_ok, rc_badfio, rc_busy}
use dyad.Utils.Flock.{
  LockType, f_rdlck, f_wrlck, Locks, allowed, without, Outcome, returns, waits, dyad_excl_flock,
  dyad_try_excl_flock, dyad_shared_flock, dyad_release_flock, Call, excl, try_excl, shared, release,
  closes, call_part, Moves, Reaches, and_then, call_returns,
}
use dyad.Utils.Flock.Excludes.{Holds, Excludes, allowed-Holds, against_write, Reaches-Excludes}

-- The calls that other processes than `pid` make, from the locks `held` on.
pub data OthersReach (pid : ℕ) (held : Locks) : Locks → Type 0 where
  no_others : OthersReach pid held held
  and_other :
      {u v : Locks} (call : Call) (other : ℕ) (has_lock fails : Bool) (rc : Rc)
      → OthersReach pid held u
      → other ≢ pid
      → call_part call other has_lock fails u ≡ returns v rc
      → OthersReach pid held v

OthersReach-Reaches :
    {pid : ℕ} {start held locks : Locks}
    → Reaches start held
    → OthersReach pid held locks
    → Reaches start locks
OthersReach-Reaches before no_others = before
OthersReach-Reaches before (and_other call other has_lock fails rc others differs runs) =
    and_then (OthersReach-Reaches before others) (call_returns call other has_lock fails rc runs)

-- A lock that another process's call leaves.
without-Holds-other :
    (other : ℕ) (locks : Locks) (pid : ℕ) (l_type : LockType)
    → other ≢ pid
    → Holds locks pid l_type
    → Holds (without other locks) pid l_type
unfolding without
without-Holds-other other [] pid l_type differs h = absurd h
without-Holds-other other ((holder, held) ∷ locks) pid l_type differs h =
    if-lem (λ rest. Holds rest pid l_type) (holder == other)
      (λ own. elim h [
        | inl here ↦ absurd (differs (ground (arith, own, here.0)))
        | inr rest ↦ without-Holds-other other locks pid l_type differs rest
      ])
      (λ _. elim h [
        | inl here ↦ inl here
        | inr rest ↦ inr (without-Holds-other other locks pid l_type differs rest)
      ])

abbrev KeepsLock : ℕ → LockType → Outcome → Type 0
KeepsLock pid l_type waits = Unit {0}
KeepsLock pid l_type (returns locks rc) = Holds locks pid l_type

call_part-KeepsLock :
    (call : Call) (other : ℕ) (has_lock fails : Bool) (locks : Locks) (pid : ℕ) (l_type : LockType)
    → other ≢ pid
    → Holds locks pid l_type
    → KeepsLock pid l_type (call_part call other has_lock fails locks)
unfolding dyad_excl_flock dyad_try_excl_flock dyad_shared_flock dyad_release_flock
call_part-KeepsLock call other has_lock fails locks pid l_type differs h =
    let P : Outcome → Type 0 = KeepsLock pid l_type in
    let rest = without-Holds-other other locks pid l_type differs h in
    elim call as (λ k. P (call_part k other has_lock fails locks)) [
      | excl ↦
          if-lem P (not has_lock) (λ _. h)
            (λ _.
              if-lem P fails (λ _. h)
                (λ _. if-lem P (allowed f_wrlck other locks) (λ _. inr rest) (λ _. tt)))
      | try_excl ↦
          if-lem P (not has_lock) (λ _. h)
            (λ _.
              if-lem P fails (λ _. h)
                (λ _. if-lem P (allowed f_wrlck other locks) (λ _. inr rest) (λ _. h)))
      | shared ↦
          if-lem P (not has_lock) (λ _. h)
            (λ _.
              if-lem P fails (λ _. h)
                (λ _. if-lem P (allowed f_rdlck other locks) (λ _. inr rest) (λ _. tt)))
      | release ↦ if-lem P (not has_lock) (λ _. h) (λ _. if-lem P fails (λ _. h) (λ _. rest))
      | closes ↦ rest
    ]

OthersReach-Holds :
    {pid : ℕ} {held locks : Locks} (l_type : LockType)
    → Holds held pid l_type
    → OthersReach pid held locks
    → Holds locks pid l_type
OthersReach-Holds l_type h no_others = h
OthersReach-Holds {pid} l_type h (and_other {u} call other has_lock fails rc others differs runs) =
    subst (KeepsLock pid l_type) runs (
      call_part-KeepsLock call other has_lock fails u pid l_type differs
        (OthersReach-Holds l_type h others))

badfio_not_ok : rc_badfio ≡ rc_ok → ⊥
badfio_not_ok h = cc

busy_not_ok : rc_busy ≡ rc_ok → ⊥
busy_not_ok h = cc

-- What a call of `excl` or `try_excl` that answers DYAD_RC_OK has.
abbrev Writes : ℕ → Outcome → Type 0
Writes pid waits = Unit {0}
Writes pid (returns locks rc) = rc ≡ rc_ok → Holds locks pid f_wrlck

excl-Writes :
    (pid : ℕ) (has_lock fails : Bool) (locks : Locks)
    → Writes pid (dyad_excl_flock pid has_lock fails locks)
unfolding dyad_excl_flock
excl-Writes pid has_lock fails locks =
    if-lem (Writes pid) (not has_lock) (λ _ h. absurd (badfio_not_ok h))
      (λ _.
        if-lem (Writes pid) fails (λ _ h. absurd (badfio_not_ok h))
          (λ _.
            if-lem (Writes pid) (allowed f_wrlck pid locks) (λ _ h. inl (refl, refl)) (λ _. tt)))

try_excl-Writes :
    (pid : ℕ) (has_lock fails : Bool) (locks : Locks)
    → Writes pid (dyad_try_excl_flock pid has_lock fails locks)
unfolding dyad_try_excl_flock
try_excl-Writes pid has_lock fails locks =
    if-lem (Writes pid) (not has_lock) (λ _ h. absurd (badfio_not_ok h))
      (λ _.
        if-lem (Writes pid) fails (λ _ h. absurd (badfio_not_ok h))
          (λ _.
            if-lem (Writes pid) (allowed f_wrlck pid locks) (λ _ h. inl (refl, refl))
              (λ _ h. absurd (busy_not_ok h))))

refused :
    (l_type : LockType) (other pid : ℕ) (locks : Locks)
    → Holds locks pid f_wrlck
    → other ≢ pid
    → allowed l_type other locks ≡ false
refused l_type other pid locks h differs = elim (Bool-cases (allowed l_type other locks)) [
  | inr e ↦ e
  | inl grants ↦ absurd (
      against_write l_type f_wrlck
        (allowed-Holds l_type other locks pid f_wrlck grants h (λ e. differs (sym e))) (inr refl))
]

-- No other process has a lock or gets one.
abbrev pub Excluded : ℕ → Locks → Type 0
Excluded pid locks =
    ((other : ℕ) (l_type : LockType) → Holds locks other l_type → pid ≡ other)
    × ((other : ℕ)
        → other ≢ pid
        → (dyad_excl_flock other true false locks ≡ waits)
          × (dyad_shared_flock other true false locks ≡ waits)
          × (dyad_try_excl_flock other true false locks ≡ returns locks rc_busy))

Holds-Excluded :
    (pid : ℕ) (locks : Locks) → Excludes locks → Holds locks pid f_wrlck → Excluded pid locks
unfolding dyad_excl_flock dyad_try_excl_flock dyad_shared_flock
Holds-Excluded pid locks ex h = (
  λ other l_type k. ex pid other l_type h k,
  λ other differs.
      let no_write = refused f_wrlck other pid locks h differs in
      let no_read = refused f_rdlck other pid locks h differs in
      (
        rw (dyad_excl_flock, no_write) refl,
        rw (dyad_shared_flock, no_read) refl,
        rw (dyad_try_excl_flock, no_write) refl,
      ),
)

-- On a file that had no lock, after any calls of any processes: when dyad_excl_flock or
-- dyad_try_excl_flock of a process answers DYAD_RC_OK, then, behind any further calls and closes of the
-- other processes, no other process holds a lock, dyad_excl_flock and dyad_shared_flock of another
-- process wait, and dyad_try_excl_flock of another process answers DYAD_RC_BUSY, where their `fcntl`
-- fails for no other reason.
pub Reaches-Excluded :
    {before held after : Locks} (pid : ℕ) (has_lock fails : Bool)
    → Reaches [] before
    → (dyad_excl_flock pid has_lock fails before ≡ returns held rc_ok)
      ⊎ (dyad_try_excl_flock pid has_lock fails before ≡ returns held rc_ok)
    → OthersReach pid held after
    → Excluded pid after
Reaches-Excluded {before} {held} {after} pid has_lock fails reached locked others =
    Holds-Excluded pid after
      (Reaches-Excludes (OthersReach-Reaches (and_then reached (move locked)) others))
      (OthersReach-Holds f_wrlck (written locked) others)
  where
    move :
        (dyad_excl_flock pid has_lock fails before ≡ returns held rc_ok)
          ⊎ (dyad_try_excl_flock pid has_lock fails before ≡ returns held rc_ok)
        → Moves before held
    move (inl e) = call_returns excl pid has_lock fails rc_ok e
    move (inr e) = call_returns try_excl pid has_lock fails rc_ok e

    written :
        (dyad_excl_flock pid has_lock fails before ≡ returns held rc_ok)
          ⊎ (dyad_try_excl_flock pid has_lock fails before ≡ returns held rc_ok)
        → Holds held pid f_wrlck
    written (inl e) = subst (Writes pid) e (excl-Writes pid has_lock fails before) refl
    written (inr e) = subst (Writes pid) e (try_excl-Writes pid has_lock fails before) refl
