-- ===== src/Wrapper.antt =====
-- dyad/wrapper/wrapper.c: the calls of the C library that are intercepted. What a call does is a list
-- of acts, in order; what the system answers is an argument.
pub mod Locks
mod Tests
use Prim.Native.Nat.{bit_and}
use dyad.Prelude.{
  ℕ, Bool, true, false, not, ◌&&◌, ◌||◌, List, [], ◌∷◌, ◌++◌, Option, none, some, ltb, ◌==◌,
  if◌then◌else◌,
}
use dyad.Prelude.Run.{Run, returned, fault, ◌>>=◌}
use dyad.Core.Codes.{Rc, is_error}
use dyad.Core.Context.{Ctx}
use dyad.Utils.Strings.{CStr}
use dyad.Utils.Paths.{Hash128, Frame, cmp_canonical_path_prefix}
use dyad.Client.Consume.{begins_with_delim}

-- `calls` is the function that is wrapped.
pub data Act : Type 0 where
  consumes : List ℕ → Act
  produces : List ℕ → Act
  calls : Act
  locks : Act
  unlocks : Act
  flushes : Act
  syncs : Act

abbrev pub o_rdonly : ℕ
o_rdonly = 0

abbrev pub o_wronly : ℕ
o_wronly = 1

abbrev pub o_accmode : ℕ
o_accmode = 3

abbrev pub o_creat : ℕ
o_creat = 64

abbrev pub o_append : ℕ
o_append = 1024

-- `fcntl` is none for -1, and so is the answer.
unfoldable pub is_wronly : Option ℕ → Option Bool
is_wronly none = none
is_wronly (some flags) = some (bit_and flags o_accmode == o_wronly)

abbrev pub is_yes : Option Bool → Bool
is_yes none = false
is_yes (some b) = b

-- `opened` is the descriptor that the wrapped call has, or the one of its stream; none for a failure.
pub record OpenCalls : Type 0 where
  pub wrappee : Bool
  pub is_path_dir : Bool
  pub opened : Option ℕ
  pub excl_flock : Rc

-- A context that is there, with a handle, and not in a call of its own. `none` is NULL.
abbrev pub is_up : Option Ctx → Bool
is_up none = false
is_up (some ctx) = ctx.has_handle && ctx.reenter

-- The file is locked; a lock that fails is released.
abbrev pub lock_acts : Rc → List Act
lock_acts rc = if is_error rc then locks ∷ unlocks ∷ [] else locks ∷ []

-- `reads` is the test of the mode in front of the call.
abbrev pub consume_acts : OpenCalls → Option Ctx → CStr → Bool → List Act
consume_acts os ctx path reads =
    if reads && not os.is_path_dir && is_up ctx then consumes path.text ∷ [] else []

abbrev pub is_positive : Option ℕ → Bool
is_positive none = false
is_positive (some fd) = ltb 0 fd

-- The third argument is read where O_CREAT is set.
abbrev pub mode_of : ℕ → ℕ → ℕ
mode_of oflag third = if bit_and oflag o_creat == 0 then 0 else third

abbrev pub same_text : List ℕ → List ℕ → Bool
same_text [] [] = true
same_text [] (y ∷ ys) = false
same_text (x ∷ xs) [] = false
same_text (x ∷ xs) (y ∷ ys) = x == y && same_text xs ys

abbrev pub is_open : Option ℕ → Bool
is_open none = false
is_open (some fd) = true

module _ (murmur : List ℕ → ℕ → Hash128) where
  -- Whether a path is below the producer's directory. The context is read through.
  unfoldable pub is_produced : Frame → Option Ctx → CStr → Run Bool
  is_produced f none path = fault
  is_produced f (some ctx) path =
      if ctx.relative_to_managed_path && not (begins_with_delim path.text)
      then returned true
      else do
        found ← cmp_canonical_path_prefix murmur f (some ctx) true path
        returned (elim found [ none ↦ false | some _ ↦ true ])

  -- Behind `real_call` of a call that opens. `writes` is its test of the mode.
  unfoldable pub open_tail :
      Frame → OpenCalls → Option Ctx → CStr → Bool → List Act → Run (Option ℕ × List Act)
  unfolding is_produced
  open_tail f os ctx path writes before =
      let acts = before ++ calls ∷ [] in
      if writes && not os.is_path_dir
      then (is_produced f ctx path >>= λ produced.
          returned (os.opened, (if produced then acts ++ lock_acts os.excl_flock else acts)))
      else returned (os.opened, acts)

  -- Both tests are of `mode`, which holds the permissions. Without a wrappee the answer is -1.
  unfoldable pub dyad_open_wrapper :
      Frame → OpenCalls → Option Ctx → CStr → ℕ → ℕ → Run (Option ℕ × List Act)
  unfolding open_tail
  dyad_open_wrapper f os ctx path oflag third =
      let mode = mode_of oflag third in
      let writes = is_positive os.opened && (mode == o_wronly || mode == o_append) in
      if not os.wrappee
      then returned (none, [])
      else open_tail f os ctx path writes (consume_acts os ctx path (mode == o_rdonly))

  unfoldable pub dyad_fopen_wrapper :
      Frame → OpenCalls → Option Ctx → CStr → List ℕ → Run (Option ℕ × List Act)
  unfolding open_tail
  dyad_fopen_wrapper f os ctx path mode =
      let writes =
        is_open os.opened && (same_text mode (b'w' ∷ []) || same_text mode (b'a' ∷ [])) in
      if not os.wrappee
      then returned (none, [])
      else open_tail f os ctx path writes (consume_acts os ctx path (same_text mode (b'r' ∷ [])))

  -- The code of the 64-bit calls is that of the others.
  unfoldable pub dyad_open64_wrapper :
      Frame → OpenCalls → Option Ctx → CStr → ℕ → ℕ → Run (Option ℕ × List Act)
  dyad_open64_wrapper = dyad_open_wrapper

  unfoldable pub dyad_fopen64_wrapper :
      Frame → OpenCalls → Option Ctx → CStr → List ℕ → Run (Option ℕ × List Act)
  dyad_fopen64_wrapper = dyad_fopen_wrapper

-- `closes` is what the wrapped call answers; `path` is what `get_path` finds.
pub record CloseCalls : Type 0 where
  pub wrappee : Bool
  pub is_fd_dir : Bool
  pub path : Option (List ℕ)
  pub fcntl : Option ℕ
  pub closes : Bool

abbrev pub to_sync : CloseCalls → Option Ctx → Option (List ℕ)
to_sync os ctx = if is_up ctx && not os.is_fd_dir then os.path else none

abbrev pub fsyncs : Option Ctx → Bool
fsyncs none = false
fsyncs (some ctx) = ctx.fsync_write

-- Behind `real_call` of a call that closes. `sync_acts` make the data durable.
unfoldable pub close_tail : CloseCalls → Option Ctx → List Act → Option (List ℕ) → Bool × List Act
close_tail os ctx sync_acts none = (os.closes, calls ∷ [])
close_tail os ctx sync_acts (some path) =
    let synced = if fsyncs ctx then sync_acts else [] in
    if is_yes (is_wronly os.fcntl)
    then (os.closes, synced ++ unlocks ∷ calls ∷ produces path ∷ [])
    else (os.closes, calls ∷ [])

-- `fd` is none below 0.
unfoldable pub dyad_close_wrapper : CloseCalls → Option Ctx → Option ℕ → Bool × List Act
unfolding close_tail
dyad_close_wrapper os ctx fd =
    let known : Option (List ℕ) = elim fd [ none ↦ none | some _ ↦ to_sync os ctx ] in
    if not os.wrappee then (false, []) else close_tail os ctx (syncs ∷ []) known

-- `fp` is false for NULL, of which `fileno` is a fault.
unfoldable pub dyad_fclose_wrapper : CloseCalls → Option Ctx → Bool → Run (Bool × List Act)
unfolding close_tail
dyad_fclose_wrapper os ctx fp =
    if not os.wrappee
    then returned (false, [])
    else if not fp
    then fault
    else returned (close_tail os ctx (flushes ∷ syncs ∷ []) (to_sync os ctx))

unfoldable pub dyad_close64_wrapper : CloseCalls → Option Ctx → Option ℕ → Bool × List Act
dyad_close64_wrapper = dyad_close_wrapper

unfoldable pub dyad_fclose64_wrapper : CloseCalls → Option Ctx → Bool → Run (Bool × List Act)
dyad_fclose64_wrapper = dyad_fclose_wrapper
