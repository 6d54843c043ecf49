-- ===== src/Wrapper/Locks.antt =====
-- When the intercepted calls lock, consume and produce.
use Prim.Native.Nat.{bit_and}
use dyad.Prelude.{
  ℕ, ◌≡◌, ◌≢◌, inl, inr, Bool, true, false, not, ◌&&◌, ◌||◌, List, [], ◌∷◌, ◌++◌, Option, none,
  some, arith, ◌==◌, if◌then◌else◌, if-lem, Bool-cases,
}
use dyad.Prelude.Run.{Run, returned, fault, ◌>>=◌}
use dyad.Core.Codes.{Rc, is_error}
use dyad.Core.Context.{Ctx}
use dyad.Utils.Strings.{CStr}
use dyad.Utils.Paths.{Hash128, Frame}
use dyad.Wrapper.{
  Act, consumes, produces, calls, locks, unlocks, flushes, syncs, OpenCalls, is_up, lock_acts,
  is_produced, open_tail, consume_acts, is_positive, mode_of, o_creat, dyad_open_wrapper, same_text,
  dyad_fopen_wrapper, CloseCalls, to_sync, close_tail, dyad_close_wrapper, dyad_fclose_wrapper,
}

-- No consume and no produce.
abbrev pub NeverSyncs : List Act → Type 0
NeverSyncs [] = Unit {0}
NeverSyncs (consumes p ∷ acts) = ⊥
NeverSyncs (produces p ∷ acts) = ⊥
NeverSyncs (calls ∷ acts) = NeverSyncs acts
NeverSyncs (locks ∷ acts) = NeverSyncs acts
NeverSyncs (unlocks ∷ acts) = NeverSyncs acts
NeverSyncs (flushes ∷ acts) = NeverSyncs acts
NeverSyncs (syncs ∷ acts) = NeverSyncs acts

-- A call that reads through NULL does no more.
abbrev pub Stays {ℓ} : {A : Type ℓ} → Run (A × List Act) → Type 0
Stays fault = Unit {0}
Stays (returned r) = NeverSyncs r.1

module _ (murmur : List ℕ → ℕ → Hash128) (f : Frame) where
  lock_acts-NeverSyncs : (rc : Rc) → NeverSyncs (calls ∷ lock_acts rc)
  lock_acts-NeverSyncs rc =
      if-lem (λ acts. NeverSyncs (calls ∷ acts)) (is_error rc) (λ _. tt) (λ _. tt)

  open_tail-Stays :
      (os : OpenCalls) (ctx : Option Ctx) (path : CStr) (writes : Bool)
      → Stays (open_tail murmur f os ctx path writes [])
  unfolding open_tail
  open_tail-Stays os ctx path writes =
      if-lem Stays (writes && not os.is_path_dir) (λ _. by_filter (is_produced murmur f ctx path))
        (λ _. tt)
    where
      by_filter :
          (r : Run Bool)
          → Stays (
              r >>= λ produced.
              returned
                (os.opened, (if produced then calls ∷ lock_acts os.excl_flock else calls ∷ [])))
      by_filter fault = tt
      by_filter (returned true) = lock_acts-NeverSyncs os.excl_flock
      by_filter (returned false) = tt

  -- Where DYAD is not set up, or is in a call of its own, an intercepted call neither consumes nor
  -- produces.
  pub wrappers-Stay :
      (ctx : Option Ctx) (os : OpenCalls) (cs : CloseCalls) (path : CStr) (mode : List ℕ)
      (oflag third : ℕ) (fd : Option ℕ) (fp : Bool)
      → is_up ctx ≡ false
      → Stays (dyad_open_wrapper murmur f os ctx path oflag third)
        × Stays (dyad_fopen_wrapper murmur f os ctx path mode)
        × NeverSyncs (dyad_close_wrapper cs ctx fd).1
        × Stays (dyad_fclose_wrapper cs ctx fp)
  unfolding dyad_open_wrapper dyad_fopen_wrapper dyad_close_wrapper dyad_fclose_wrapper close_tail
  wrappers-Stay ctx os cs path mode oflag third fd fp down = (
    if-lem Stays (not os.wrappee) (λ _. tt)
        (λ _. rw (no_consume (mode_of oflag third == 0)) (open_tail-Stays os ctx path _)),
    if-lem Stays (not os.wrappee) (λ _. tt)
        (λ _. rw (no_consume (same_text mode (b'r' ∷ []))) (open_tail-Stays os ctx path _)),
    if-lem (λ (r : Bool × List Act). NeverSyncs r.1) (not cs.wrappee) (λ _. tt) (λ _. by_fd fd),
    if-lem Stays (not cs.wrappee) (λ _. tt)
        (λ _. if-lem Stays (not fp) (λ _. tt) (λ _. rw no_path tt)),
  )
    where
      no_path : to_sync cs ctx ≡ none
      no_path = ground (arith, down)

      by_fd :
          (fd : Option ℕ)
          → NeverSyncs
              (close_tail cs ctx (syncs ∷ []) (elim fd [ none ↦ none | some _ ↦ to_sync cs ctx ])).1
      by_fd none = tt
      by_fd (some n) = rw no_path tt

      no_consume : (reads : Bool) → consume_acts os ctx path reads ≡ []
      no_consume reads = ground (arith, down)

  -- A file that is opened by `open`, with any flags, where the third argument is neither 0001 nor 02000:
  -- it is never locked, and it is consumed as for reading where the flags have no O_CREAT, also if they
  -- ask for writing, or where the third argument is 0.
  dyad_open_wrapper-unlocked :
      (os : OpenCalls) (ctx : Option Ctx) (path : CStr) (oflag third : ℕ)
      → os.wrappee ≡ true
      → third ≢ 1
      → third ≢ 1024
      → dyad_open_wrapper murmur f os ctx path oflag third
        ≡ returned (
          os.opened,
          consume_acts os ctx path (bit_and oflag o_creat == 0 || third == 0) ++ calls ∷ [],
        )
  unfolding dyad_open_wrapper open_tail
  dyad_open_wrapper-unlocked os ctx path oflag third w not_wronly not_append =
      let no : ((third == 1) || (third == 1024)) ≡ false = ground arith in
      elim (Bool-cases (bit_and oflag o_creat == 0)) [
        | inl e ↦ elim (Bool-cases (is_positive os.opened)) [
          | inl p ↦ simp (w, e, p)
          | inr p ↦ simp (w, e, p)
        ]
        | inr e ↦ elim (Bool-cases (is_positive os.opened)) [
          | inl p ↦ simp (w, e, p, no)
          | inr p ↦ simp (w, e, p)
        ]
      ]
