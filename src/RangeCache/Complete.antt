-- ===== src/RangeCache/Complete.antt =====
-- `dyad_range_cache_ensure` when no system call fails: it fills the span, and a second call finds
-- the span marked.
use dyad.Prelude.{
  ℕ, ◌+◌, ◌/◌, ◌^◌, ◌≤◌, ◌<◌, ◌≡◌, inl, inr, true, false, ◌==◌, List, some, arith, length,
  Bool-cases,
}
use dyad.Prelude.Run.{returned}
use dyad.Core.Codes.{rc_ok}
use dyad.RangeCache.{
  Files, Answers, block_size, with_bitmap, path_too_long, search_and_fill, dyad_range_cache_ensure,
}
use dyad.RangeCache.Sound.{IsSound, with_bitmap-IsSound}
use dyad.RangeCache.Hit.{ProbeSucceeds, last_of, last_of_lem, dyad_range_cache_ensure-hit}
use dyad.RangeCache.Succeeds.{all_succeed, HasLocal, search_and_fill-succeeds}

ensure-empty :
    (os : Answers) (local_path origin_path : List ℕ) (offset len : ℕ) (fs : Files)
    → (len == 0) ≡ true
    → dyad_range_cache_ensure os local_path (some origin_path) offset len fs ≡ returned (fs, rc_ok)
unfolding dyad_range_cache_ensure
ensure-empty os local_path origin_path offset len fs e = rw e

ensure-filled :
    (local_path origin_path : List ℕ) (offset len : ℕ) (fs fs' : Files)
    → path_too_long local_path ≡ false
    → offset + len < 2 ^ 64
    → (len == 0) ≡ false
    → search_and_fill all_succeed (offset / block_size) (last_of offset len) (with_bitmap fs)
      ≡ returned (fs', rc_ok)
    → dyad_range_cache_ensure all_succeed local_path (some origin_path) offset len fs
      ≡ returned (fs', rc_ok)
unfolding dyad_range_cache_ensure
ensure-filled local_path origin_path offset len fs fs' short small e runs =
    rw (e, short, last_of_lem offset len e small) runs

-- On a sound state, when no system call fails: a request of a staged local file that ends within the
-- origin (whose size, with one block, fits 64 bits), and whose local path is short enough for the
-- buffer of the bitmap's path, answers DYAD_RC_OK, and the same request again answers DYAD_RC_OK and
-- changes no file.
pub dyad_range_cache_ensure-completes :
    (o : List ℕ) (local_path origin_path : List ℕ) (offset len : ℕ) (fs : Files)
    → IsSound o fs
    → HasLocal (length o) fs
    → length o + block_size < 2 ^ 64
    → offset + len ≤ length o
    → path_too_long local_path ≡ false
    → (fs' : Files) × (dyad_range_cache_ensure all_succeed local_path
          (some origin_path)
          offset
          len
          fs
        ≡ returned (fs', rc_ok))
      × ((os : Answers)
          → ProbeSucceeds os
          → dyad_range_cache_ensure os local_path (some origin_path) offset len fs'
            ≡ returned (fs', rc_ok))
dyad_range_cache_ensure-completes o local_path origin_path offset len fs s has small fits short =
    elim (Bool-cases (len == 0)) [
      | inl e ↦ (
        fs,
        ensure-empty all_succeed local_path origin_path offset len fs e,
        λ os _. ensure-empty os local_path origin_path offset len fs e,
      )
      | inr e ↦
          let pos : 0 < len = ground arith in
          let (fs', runs, made, all) =
            search_and_fill-succeeds o (offset / block_size) (last_of offset len) small
              (omega arith) (omega arith) (with_bitmap fs) (with_bitmap-IsSound o s)
              (unfold with_bitmap in has) (unfold with_bitmap in (λ x. cc)) in
          (
            fs',
            ensure-filled local_path origin_path offset len fs fs' short (omega arith) e runs,
            λ os h.
                dyad_range_cache_ensure-hit os local_path origin_path offset len fs' h short made
                  (omega arith) all,
          )
    ]
