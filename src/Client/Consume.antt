-- ===== src/Client/Consume.antt =====
-- `dyad_produce` and `dyad_consume`. The calls that talk to the Flux KVS and to the producer's broker
-- (`dyad_commit`, `dyad_fetch_metadata`, `dyad_get_data`), and the system calls, are arguments.
pub mod Ends
pub mod Transfer
mod Tests
use dyad.Prelude.{
  ℕ, ◌^◌, Bool, true, false, not, ◌&&◌, ◌||◌, List, [], ◌∷◌, Option, none, some, leb, ltb, ◌==◌,
  if◌then◌else◌, length,
}
use dyad.Prelude.Run.{Run, returned, fault, ◌>>=◌}
use dyad.Core.Codes.{Rc, rc_ok, rc_noctx, rc_badmanagedpath, rc_badfio, is_error}
use dyad.Core.Context.{Ctx}
use dyad.Utils.Strings.{CStr, strncmp_eq, path_max}
use dyad.Utils.Paths.{Hash128, Frame, cmp_canonical_path_prefix}
use dyad.Client.Store.{Writer, dyad_cons_store}

-- What a call of `dyad_consume` has in hand, and what it has done. `evicts` is the call of
-- `dyad_cache_maybe_evict`.
pub record Hands : Type 0 where
  pub lock_fd : Bool
  pub locked : Bool
  pub io_fd : Bool
  pub buffer : Bool
  pub mdata : Bool
  pub stored : List ℕ
  pub evicts : Bool
  pub reenter : Bool

-- `file_size` is what `get_file_size` answers, 0 also for a failure. `fetch` has the metadata or
-- NULL, `get_data` the buffer or NULL.
pub record Calls : Type 0 where
  pub open_lock : Bool
  pub excl_lock : Rc
  pub file_size : ℕ
  pub fetch : Rc × Bool
  pub get_data : Rc × Option (List ℕ)
  pub open_io : Bool
  pub makes_dir : Bool
  pub write : Writer
  pub fuel : ℕ
  pub close_io : Bool
  pub close_lock : Bool

-- Where the function goes on: at `consume_done`, at `consume_close`, or behind the fetch.
pub data Next : Type 0 where
  consume_done : Hands → Rc → Next
  consume_close : Hands → Rc → Next
  fetched : Hands → Rc → Next

abbrev pub release : Hands → Hands
release h = record h { locked = false }

abbrev pub is_some : Option (List ℕ) → Bool
is_some none = false
is_some (some _) = true

abbrev pub bytes_of : Option (List ℕ) → List ℕ
bytes_of none = []
bytes_of (some xs) = xs

-- Behind `dyad_cons_store`.
abbrev pub after_store : Calls → Hands → List ℕ × Rc → Next
after_store os h (out, rc) =
    let closed : Hands = record h { stored = out; mdata = false; io_fd = false } in
    if not os.close_io
    then consume_done (release closed) rc_badfio
    else if is_error rc
    then consume_done (release closed) rc
    else fetched closed rc

-- The transfer from the producer; `none` is a store that wants more fuel.
unfoldable pub transfer : Calls → Hands → Option (Run Next)
transfer os h =
    let (rc, has_mdata) = os.fetch in
    let (rc', file_data) = os.get_data in
    let known : Hands = record h { mdata = has_mdata } in
    let got : Hands = record known { buffer = is_some file_data } in
    let opened : Hands = record got { io_fd = true } in
    let store = dyad_cons_store os.fuel os.makes_dir os.write (bytes_of file_data) in
    if is_error rc
    then some (returned (consume_done (release known) rc))
    else if not has_mdata
    then some (returned (consume_done (release known) rc_ok))
    else if is_error rc'
    then some (returned (consume_done (release got) rc'))
    else if not os.open_io
    then some (returned (consume_close got rc_badfio))
    else elim store [
      | none ↦ none
      | some fault ↦ some fault
      | some (returned r) ↦ some (returned (after_store os opened r))
    ]

-- The two ways to the data, with the lock held.
unfoldable pub obtain : Calls → Ctx → Hands → Option (Run Next)
unfolding transfer
obtain os ctx h =
    let (rc, has_mdata) = os.fetch in
    let wants = not ctx.use_fs_locks || os.file_size == 0 in
    if ctx.shared_storage
    then some (
        returned (
          if wants
          then consume_done (record (release h) { mdata = has_mdata }) rc
          else consume_done (release h) rc_ok))
    else if wants
    then transfer os h
    else some (returned (fetched h rc_ok))

-- `consume_close:`
abbrev pub at_close : Hands → Rc → Hands × Rc
at_close h rc = (record h { reenter = true }, rc)

-- `consume_done:`; closing a descriptor gives up its lock.
abbrev pub at_done : Calls → Hands → Rc → Hands × Rc
at_done os h rc =
    at_close (record h { lock_fd = false; locked = false; buffer = false })
      (if os.close_lock then rc else rc_badfio)

abbrev pub finish : Calls → Next → Hands × Rc
finish os (consume_done h rc) = at_done os h rc
finish os (consume_close h rc) = at_close h rc
finish os (fetched h rc) = at_done os (record (release h) { evicts = true }) rc

abbrev pub empty_hands : Bool → Hands
empty_hands reenter = record {
  lock_fd = false;
  locked = false;
  io_fd = false;
  buffer = false;
  mdata = false;
  stored = [];
  evicts = false;
  reenter = reenter;
}

-- From the opening of the file on.
unfoldable pub consume_tracked : Calls → Ctx → Option (Run (Hands × Rc))
unfolding obtain
consume_tracked os ctx =
    let nothing = empty_hands false in
    let opened : Hands = record nothing { lock_fd = true } in
    if not os.open_lock
    then some (returned (at_close nothing rc_badfio))
    else if is_error os.excl_lock
    then some (returned (at_done os opened os.excl_lock))
    else elim (obtain os ctx (record opened { locked = true })) [
      | none ↦ none
      | some fault ↦ some fault
      | some (returned n) ↦ some (returned (finish os n))
    ]

abbrev pub begins_with_delim : List ℕ → Bool
begins_with_delim fname = strncmp_eq fname (b'/' ∷ []) 1

module _ (murmur : List ℕ → ℕ → Hash128) where
  -- A NULL context is `none`; the code then writes `reenter` through it, which is a fault. So is the
  -- copy of a path, relative to the managed one, that is longer than the buffer.
  unfoldable pub dyad_consume : Frame → Calls → Option Ctx → CStr → Option (Run (Hands × Rc))
  unfolding consume_tracked
  dyad_consume f os none fname = some fault
  dyad_consume f os (some ctx) fname =
      let tracked = consume_tracked os ctx in
      if not ctx.has_handle
      then some (returned (at_close (empty_hands ctx.reenter) rc_noctx))
      else elim ctx.cons.managed_path [
        | none ↦ some (returned (at_close (empty_hands ctx.reenter) rc_badmanagedpath))
        | some _ ↦
            if ctx.relative_to_managed_path
              && ltb 0 (length fname.text)
              && not (begins_with_delim fname.text)
            then (if ltb path_max (length fname.text) then some fault else tracked)
            else elim (cmp_canonical_path_prefix murmur f (some ctx) false fname) [
              | fault ↦ some fault
              | returned none ↦ some (returned (at_close (empty_hands ctx.reenter) rc_ok))
              | returned (some _) ↦ tracked
            ]
      ]

-- The code, and whether `dyad_cache_maybe_evict` is called. A NULL context is written to first.
unfoldable pub dyad_produce : Rc → Option Ctx → Run (Rc × Bool)
dyad_produce commit none = fault
dyad_produce commit (some ctx) =
    if not ctx.has_handle then returned (rc_noctx, false) else elim ctx.prod.managed_path [
      | none ↦ returned (rc_badmanagedpath, false)
      | some _ ↦ returned (commit, not (is_error commit))
    ]
