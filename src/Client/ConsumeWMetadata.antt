-- ===== src/Client/ConsumeWMetadata.antt =====
-- `dyad_consume_w_metadata`: the file is fetched with metadata that the caller has.
pub mod Leaks
mod Tests
use dyad.Prelude.{ℕ, Bool, true, false, not, ◌||◌, Option, none, some, ◌==◌, if◌then◌else◌, List}
use dyad.Prelude.Run.{Run, returned, fault}
use dyad.Core.Codes.{Rc, rc_ok, rc_noctx, rc_badmanagedpath, rc_badfio, is_error}
use dyad.Core.Context.{Ctx}
use dyad.Client.Store.{dyad_cons_store}
use dyad.Client.Consume.{Hands, Calls, release, is_some, bytes_of, at_close, empty_hands}

-- `consume_done:`, which does not close the descriptor of the lock.
abbrev pub w_done : Hands → Rc → Hands × Rc
w_done h rc = at_close (record h { buffer = false }) rc

-- The end of the regular way: the lock is released, the eviction called, the descriptor closed.
abbrev pub w_regular : Calls → Hands → Hands × Rc
w_regular os h =
    w_done (record (release h) { lock_fd = false; evicts = true })
      (if os.close_lock then rc_ok else rc_badfio)

-- Behind `dyad_cons_store`. Closing the file gives up the lock of the process on it, so it does not
-- matter that the lock is then released on the closed descriptor.
abbrev pub w_after_store : Calls → Hands → List ℕ × Rc → Hands × Rc
w_after_store os h (out, rc) =
    let closed : Hands = record h { stored = out; io_fd = false; locked = false } in
    if not os.close_io
    then w_done closed rc_badfio
    else if is_error rc
    then w_done closed rc
    else w_regular os closed

-- With the lock held, for a file that is empty.
unfoldable pub w_transfer : Calls → Hands → Option (Run (Hands × Rc))
w_transfer os h =
    let (rc, file_data) = os.get_data in
    let got : Hands = record h { buffer = is_some file_data } in
    let opened : Hands = record got { io_fd = true } in
    let store = dyad_cons_store os.fuel os.makes_dir os.write (bytes_of file_data) in
    if is_error rc
    then some (returned (w_done (release got) rc))
    else if not os.open_io
    then some (returned (at_close got rc_badfio))
    else elim store [
      | none ↦ none
      | some fault ↦ some fault
      | some (returned r) ↦ some (returned (w_after_store os opened r))
    ]

-- From the opening of the file on.
unfoldable pub w_opened : Calls → Option (Run (Hands × Rc))
unfolding w_transfer
w_opened os =
    let opened : Hands = record (empty_hands false) { lock_fd = true } in
    let held : Hands = record opened { locked = true } in
    let transferred = w_transfer os held in
    if not os.open_lock
    then some (returned (at_close (empty_hands false) rc_badfio))
    else if is_error os.excl_lock
    then some (returned (at_close opened os.excl_lock))
    else if os.file_size == 0
    then transferred
    else some (returned (w_regular os held))

-- `has_mdata` is `mdata != NULL`. A NULL context is `none`; the code then writes through it.
unfoldable pub dyad_consume_w_metadata : Calls → Option Ctx → Bool → Option (Run (Hands × Rc))
unfolding w_opened
dyad_consume_w_metadata os none has_mdata = some fault
dyad_consume_w_metadata os (some ctx) has_mdata =
    let opened = w_opened os in
    if not ctx.has_handle
    then some (returned (at_close (empty_hands ctx.reenter) rc_noctx))
    else if not has_mdata
    then some (returned (at_close (empty_hands ctx.reenter) rc_ok))
    else elim ctx.cons.managed_path [
      | none ↦ some (returned (at_close (empty_hands ctx.reenter) rc_badmanagedpath))
      | some _ ↦ opened
    ]
