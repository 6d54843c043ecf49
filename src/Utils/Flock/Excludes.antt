-- ===== src/Utils/Flock/Excludes.antt =====
-- A write lock of a process excludes every other process, whatever calls the processes make.
use dyad.Prelude.{
  ℕ, Bool, true, false, not, ◌&&◌, ◌||◌, ◌==◌, ◌≡◌, ◌≢◌, refl, sym, subst, ◌∙◌, ◌⊎◌, inl, inr, [],
  ◌∷◌, arith, if-lem,
}
use dyad.Utils.Flock.{
  LockType, f_rdlck, f_wrlck, Locks, compatible, allowed, without, with_lock, Outcome, returns,
  waits, setlkw, dyad_excl_flock, dyad_try_excl_flock, dyad_shared_flock, dyad_release_flock, Call,
  excl, try_excl, shared, release, closes, call_part, Moves, call_returns, Reaches, none_yet,
  and_then,
}

abbrev pub Holds : Locks → ℕ → LockType → Type 0
Holds [] pid l_type = ⊥
Holds ((holder, held) ∷ locks) pid l_type =
    ((holder ≡ pid) × (held ≡ l_type)) ⊎ Holds locks pid l_type

-- Nobody else holds a lock when a process holds a write lock.
abbrev pub Excludes : Locks → Type 0
Excludes locks =
    (writer pid : ℕ) (l_type : LockType)
    → Holds locks writer f_wrlck
    → Holds locks pid l_type
    → writer ≡ pid

pub without-Holds :
    (pid : ℕ) (locks : Locks) (q : ℕ) (l_type : LockType)
    → Holds (without pid locks) q l_type
    → Holds locks q l_type × (q ≢ pid)
unfolding without
without-Holds pid [] q l_type h = absurd h
without-Holds pid ((holder, held) ∷ locks) q l_type h =
    if-lem (λ rest. Holds rest q l_type → Holds ((holder, held) ∷ locks) q l_type × (q ≢ pid))
      (holder == pid)
      (λ _ h. let (there, other) = without-Holds pid locks q l_type h in (inr there, other))
      (λ differs h. elim h [
        | inl here ↦ (inl here, (λ e. ground (arith, here.0)))
        | inr rest ↦
            let (there, other) = without-Holds pid locks q l_type rest in (inr there, other)
      ])
      h

both : (a b : Bool) → (a && b) ≡ true → (a ≡ true) × (b ≡ true)
both true b h = (refl, h)
both false b h = cc

other_than : (a b : ℕ) → a ≢ b → (a == b) ≡ false
other_than a b n = ground arith

-- A lock is granted when the locks of the other processes go with it.
pub allowed-Holds :
    (l_type : LockType) (pid : ℕ) (locks : Locks) (q : ℕ) (held : LockType)
    → allowed l_type pid locks ≡ true
    → Holds locks q held
    → q ≢ pid
    → compatible l_type held ≡ true
unfolding allowed
allowed-Holds l_type pid [] q held grants h other = absurd h
allowed-Holds l_type pid ((holder, k) ∷ locks) q held grants h other =
    let (first, rest) =
      both ((holder == pid) || compatible l_type k) (allowed l_type pid locks) grants in
    elim h [
      | inl here ↦
          let apart : (holder == pid) ≡ false =
            other_than holder pid (λ e. other (sym here.0 ∙ e)) in
          subst (λ t. compatible l_type t ≡ true) here.1
            (subst (λ b. b || compatible l_type k ≡ true) apart first)
      | inr there ↦ allowed-Holds l_type pid locks q held rest there other
    ]

-- No lock goes with a write lock.
pub against_write :
    (l_type held : LockType)
    → compatible l_type held ≡ true
    → (l_type ≡ f_wrlck) ⊎ (held ≡ f_wrlck)
    → ⊥
against_write f_wrlck held h write = cc
against_write f_rdlck f_wrlck h write = cc
against_write f_rdlck f_rdlck h (inl e) = cc
against_write f_rdlck f_rdlck h (inr e) = cc

Excludes-without : (pid : ℕ) (locks : Locks) → Excludes locks → Excludes (without pid locks)
Excludes-without pid locks ex writer q l_type w h =
    ex writer q l_type (without-Holds pid locks writer f_wrlck w).0
      (without-Holds pid locks q l_type h).0

Excludes-with_lock :
    (pid : ℕ) (l_type : LockType) (locks : Locks)
    → allowed l_type pid locks ≡ true
    → Excludes locks
    → Excludes (with_lock pid l_type locks)
Excludes-with_lock pid l_type locks grants ex writer q held w h = elim w [
  | inl a ↦ elim h [
    | inl b ↦ sym a.0 ∙ b.0
    | inr rest ↦
        let (there, other) = without-Holds pid locks q held rest in
        absurd (
          against_write l_type held (allowed-Holds l_type pid locks q held grants there other)
            (inl a.1))
  ]
  | inr first ↦
      let (written, apart) = without-Holds pid locks writer f_wrlck first in
      elim h [
        | inl b ↦ absurd (
            against_write l_type f_wrlck
              (allowed-Holds l_type pid locks writer f_wrlck grants written apart) (inr refl))
        | inr rest ↦ ex writer q held written (without-Holds pid locks q held rest).0
      ]
]

-- What a call may make of the locks.
abbrev KeepsExcludes : Outcome → Type 0
KeepsExcludes waits = Unit {0}
KeepsExcludes (returns locks rc) = Excludes locks

setlkw-Excludes :
    (l_type : LockType) (pid : ℕ) (fails : Bool) (locks : Locks)
    → Excludes locks
    → KeepsExcludes (setlkw l_type pid fails locks)
setlkw-Excludes l_type pid fails locks ex =
    if-lem KeepsExcludes fails (λ _. ex)
      (λ _.
        if-lem KeepsExcludes (allowed l_type pid locks)
          (λ grants. Excludes-with_lock pid l_type locks grants ex) (λ _. tt))

call_part-Excludes :
    (call : Call) (pid : ℕ) (has_lock fails : Bool) (locks : Locks)
    → Excludes locks
    → KeepsExcludes (call_part call pid has_lock fails locks)
unfolding dyad_excl_flock dyad_try_excl_flock dyad_shared_flock dyad_release_flock
call_part-Excludes excl pid has_lock fails locks ex =
    if-lem KeepsExcludes (not has_lock) (λ _. ex) (λ _. setlkw-Excludes f_wrlck pid fails locks ex)
call_part-Excludes try_excl pid has_lock fails locks ex =
    if-lem KeepsExcludes (not has_lock) (λ _. ex)
      (λ _.
        if-lem KeepsExcludes fails (λ _. ex)
          (λ _.
            if-lem KeepsExcludes (allowed f_wrlck pid locks)
              (λ grants. Excludes-with_lock pid f_wrlck locks grants ex) (λ _. ex)))
call_part-Excludes shared pid has_lock fails locks ex =
    if-lem KeepsExcludes (not has_lock) (λ _. ex) (λ _. setlkw-Excludes f_rdlck pid fails locks ex)
call_part-Excludes release pid has_lock fails locks ex =
    if-lem KeepsExcludes (not has_lock) (λ _. ex)
      (λ _. if-lem KeepsExcludes fails (λ _. ex) (λ _. Excludes-without pid locks ex))
call_part-Excludes closes pid has_lock fails locks ex = Excludes-without pid locks ex

Moves-Excludes : {u v : Locks} → Excludes u → Moves u v → Excludes v
Moves-Excludes {u} ex (call_returns call pid has_lock fails rc e) =
    subst KeepsExcludes e (call_part-Excludes call pid has_lock fails u ex)

-- However processes call the four functions and close the file, beginning with no lock on it: when a
-- process holds the write lock, no other process holds a lock.
pub Reaches-Excludes : {locks : Locks} → Reaches [] locks → Excludes locks
Reaches-Excludes none_yet = λ writer pid l_type w h. absurd w
Reaches-Excludes (and_then before move) = Moves-Excludes (Reaches-Excludes before) move
