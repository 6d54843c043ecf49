-- ===== src/RangeCache/Races.antt =====
-- Several callers of `dyad_range_cache_ensure` on the same files. Each part under a lock, and the
-- fetch, which holds none, is one step; the parts of the callers come in any order.
pub mod Alone
pub mod Safe
use dyad.Prelude.{ℕ, ◌≡◌, if◌then◌else◌, List, some, get_elem?, set}
use dyad.Prelude.Run.{Run, returned, ◌>>=◌}
use dyad.Core.Codes.{Rc, rc_ok, is_error}
use dyad.RangeCache.{
  Files, Answers, Prepared, refused, cached, missing, probe, prepare, fetch_span, mark_span,
}

-- Where a caller stands between two parts. `fetching` and `marking` carry the size of the origin.
pub data Phase : Type 0 where
  starting : Phase
  checking : Phase
  fetching : ℕ → Phase
  marking : ℕ → Phase
  finished : Rc → Phase

pub record Caller : Type 0 where
  pub block_start : ℕ
  pub block_end : ℕ
  pub phase : Phase

abbrev pub after_check : Prepared → Files × Phase
after_check (refused fs rc) = (fs, finished rc)
after_check (cached fs) = (fs, finished rc_ok)
after_check (missing fs n) = (fs, fetching n)

-- The next part of a caller's run.
unfoldable pub next_part : Answers → ℕ → ℕ → Phase → Files → Run (Files × Phase)
next_part os block_start block_end starting fs = do
  hit ← probe os block_start block_end fs
  returned (fs, (if hit then finished rc_ok else checking))
next_part os block_start block_end checking fs = do
  found ← prepare os block_start block_end fs
  returned (after_check found)
next_part os block_start block_end (fetching n) fs =
    let (fetched, rc) = fetch_span os block_start block_end n fs in
    returned (fetched, (if is_error rc then finished rc else marking n))
next_part os block_start block_end (marking n) fs = do
  marked ← mark_span os block_start block_end n fs
  returned (marked.0, finished marked.1)
next_part os block_start block_end (finished rc) fs = returned (fs, finished rc)

pub record World : Type 0 where
  pub files : Files
  pub callers : List Caller

-- One part of the caller at `i`, with any answers of the system calls.
pub data Moves : World → World → Type 0 where
  part :
      (w : World) (i : ℕ) (c : Caller) (os : Answers) (fs : Files) (phase : Phase)
      → get_elem? w.callers i ≡ some c
      → next_part os c.block_start c.block_end c.phase w.files ≡ returned (fs, phase)
      → Moves w (record { files = fs; callers = set w.callers i (record c { phase = phase }) })

pub data Reaches : World → World → Type 0 where
  none_yet : (w : World) → Reaches w w
  and_then : {u v w : World} → Reaches u v → Moves v w → Reaches u w
