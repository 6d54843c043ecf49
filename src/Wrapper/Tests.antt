-- ===== src/Wrapper/Tests.antt =====
-- The file "/p/a" of the producer's directory "/p".
use dyad.Prelude.{◌≡◌, refl, true, false, [], ◌∷◌, none, some}
use dyad.Prelude.Run.{returned}
use dyad.Core.Codes.{rc_ok}
use dyad.Core.Context.{Ctx}
use dyad.Core.Samples.{sample_ctx, length_hash}
use dyad.Utils.Paths.Samples.{asked, frame, side}
use dyad.Wrapper.{
  calls, produces, unlocks, syncs, consumes, OpenCalls, CloseCalls, o_wronly, is_wronly, open_tail,
  dyad_open_wrapper, dyad_fopen_wrapper, dyad_close_wrapper, dyad_fclose_wrapper, close_tail,
}
use dyad.Wrapper.Locks.{NeverSyncs, Stays, wrappers-Stay}

abbrev ctx : Ctx
ctx = record sample_ctx { prod = side; fsync_write = true }

abbrev opens : OpenCalls
opens = record { wrappee = true; is_path_dir = false; opened = some 3; excl_flock = rc_ok }

abbrev closes : CloseCalls
closes = record {
  wrappee = true;
  is_fd_dir = false;
  path = some asked.text;
  fcntl = some 1;
  closes = true;
}

closes_it :
    dyad_close_wrapper closes (some ctx) (some 3)
    ≡ (true, syncs ∷ unlocks ∷ calls ∷ produces asked.text ∷ [])
unfolding dyad_close_wrapper close_tail is_wronly
closes_it = refl

-- `open (path, O_WRONLY)` consumes the file.
consumes_it :
    dyad_open_wrapper length_hash frame opens (some ctx) asked o_wronly 0
    ≡ returned (some 3, consumes asked.text ∷ calls ∷ [])
unfolding dyad_open_wrapper open_tail
consumes_it = refl

writes_only : is_wronly (some 1) ≡ some true
unfolding is_wronly
writes_only = refl

wrappers-Stay_example :
    Stays (dyad_open_wrapper length_hash frame opens none asked 0 0)
    × Stays (dyad_fopen_wrapper length_hash frame opens none asked (b'r' ∷ []))
    × NeverSyncs (dyad_close_wrapper closes none (some 3)).1
    × Stays (dyad_fclose_wrapper closes none true)
wrappers-Stay_example =
    wrappers-Stay length_hash frame none opens closes asked (b'r' ∷ []) 0 0 (some 3) true refl
