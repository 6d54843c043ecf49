-- ===== src/RangeCache/Races/Alone.antt =====
-- The parts of one caller with nobody between them are `dyad_range_cache_ensure`'s run.
use dyad.Prelude.{ℕ, ◌≡◌, refl, inl, inr, true, false, Bool-cases}
use dyad.Prelude.Run.{Run, returned, ◌>>=◌, Run-cases}
use dyad.Core.Codes.{Rc, is_error}
use dyad.RangeCache.{
  Files, Answers, Prepared, refused, cached, missing, probe, prepare, fetch_span, search_and_fill,
  fetch_and_mark, continue_from,
}
use dyad.RangeCache.Races.{Phase, starting, fetching, finished, next_part, after_check}

abbrev and_next : Answers → ℕ → ℕ → Files × Phase → Run (Files × Phase)
and_next os block_start block_end r = next_part os block_start block_end r.1 r.0

-- At most four parts end a run.
abbrev alone : Answers → ℕ → ℕ → Files → Run (Files × Phase)
alone os block_start block_end fs =
    next_part os block_start block_end starting fs
    >>= and_next os block_start block_end
    >>= and_next os block_start block_end
    >>= and_next os block_start block_end

abbrev answered : Files × Rc → Files × Phase
answered r = (r.0, finished r.1)

fetching-alone :
    (os : Answers) (block_start block_end n : ℕ) (fs : Files)
    → (next_part os block_start block_end (fetching n) fs >>= and_next os block_start block_end)
      ≡ (fetch_and_mark os block_start block_end n fs >>= λ r. returned (answered r))
unfolding next_part fetch_and_mark
fetching-alone os block_start block_end n fs =
    let fetched = fetch_span os block_start block_end n fs in
    elim (Bool-cases (is_error fetched.1)) [ inl e ↦ rw e | inr e ↦ rw e ]

checking-alone :
    (os : Answers) (block_start block_end : ℕ) (p : Prepared)
    → (and_next os block_start block_end (after_check p) >>= and_next os block_start block_end)
      ≡ (continue_from os block_start block_end p >>= λ r. returned (answered r))
unfolding next_part
checking-alone os block_start block_end (refused fs rc) = refl
checking-alone os block_start block_end (cached fs) = refl
checking-alone os block_start block_end (missing fs n) =
    fetching-alone os block_start block_end n fs

-- The parts of one caller, one after the other, do what `dyad_range_cache_ensure` does behind the
-- opening of the bitmap file, faults included.
alone_lem :
    (os : Answers) (block_start block_end : ℕ) (fs : Files)
    → alone os block_start block_end fs
      ≡ (search_and_fill os block_start block_end fs >>= λ r. returned (answered r))
unfolding next_part search_and_fill
alone_lem os block_start block_end fs = elim (Run-cases (probe os block_start block_end fs)) [
  | inl e ↦ rw e
  | inr (true, e) ↦ rw e
  | inr (false, e) ↦ elim (Run-cases (prepare os block_start block_end fs)) [
    | inl f ↦ rw (e, f)
    | inr (p, f) ↦ rw (e, f) (checking-alone os block_start block_end p)
  ]
]
