-- ===== src/RangeCache/Search.antt =====
-- The part of `dyad_range_cache_ensure` of dyad/utils/range_cache.c that searches the bitmap and fetches.
use dyad.Prelude.{
  ℕ, ◌+◌, ◌*◌, ◌/◌, ◌^◌, ◌≤◌, ◌<◌, ◌≡◌, ◌≢◌, refl, sym, ap, subst, inl, inr, Bool, true, false,
  ◌&&◌, ltb, ◌==◌, List, arith, length, Bool-cases,
}
use dyad.Prelude.Run.{returned}
use dyad.Core.Codes.{Rc, rc_ok, rc_badfio, rc_sysfail, is_error, ok_of_not_error}
use dyad.RangeCache.{
  Files, Answers, Prepared, refused, cached, missing, content, block_size, num_blocks, bitmap_bytes,
  size_files, prepare, prepare_sized, probe, fetch_span, fetch_and_mark, continue_from,
  search_and_fill, rounds, blocks_set,
}
use dyad.RangeCache.Bitmap.{bit_at, IsBytes, blocks_set_lem, AllMarked}
use dyad.RangeCache.Bounds.{blocks_fit}
use dyad.RangeCache.Fetch.{fetch_span-Present, fetch_span-IsSound}
use dyad.RangeCache.Mark.{mark_span-IsSound, buffer, buffer_lem}
use dyad.RangeCache.Sound.{IsSound, Keeps, SpanPresent, size_files-IsSound}

module _ (o : List ℕ) (block_start block_end : ℕ) (small : length o + block_size < 2 ^ 64)
    (inside : block_end * block_size < length o) (ordered : block_start ≤ block_end) where
  marked-SpanPresent :
      (fs : Files)
      → IsSound o fs
      → AllMarked (content fs.bitmap_file) block_start (rounds block_start block_end)
      → SpanPresent o block_start block_end fs
  marked-SpanPresent fs s all i p q below =
      s.marked (i / block_size) i (all (i / block_size) (omega arith) (omega arith)) (omega arith)
        (omega arith) below

  -- What the second check finds.
  abbrev pub Finds : Files → Prepared → Type 0
  Finds fs (refused fs' rc) = IsSound o fs' × Keeps o fs fs' × (rc ≢ rc_ok)
  Finds fs (cached fs') = IsSound o fs' × Keeps o fs fs' × SpanPresent o block_start block_end fs'
  Finds fs (missing fs' n) = IsSound o fs' × Keeps o fs fs' × (n ≡ length o)

  prepare_sized-Finds :
      (os : Answers) (fs : Files)
      → IsSound o fs
      → (p : Prepared) × (prepare_sized os block_start block_end (length o) fs ≡ returned p)
        × Finds fs p
  unfolding prepare_sized
  prepare_sized-Finds os fs s = elim (Bool-cases os.excl_lock) [
    | inr e ↦ (refused fs rc_badfio, ground arith, (s, (λ i below h. h), (λ x. cc)))
    | inl e ↦ elim (Bool-cases (size_files os (length o) fs).1) [
      | inr e₁ ↦ (refused sized rc_badfio, ground (arith, filled), (sizes.0, sizes.1, (λ x. cc)))
      | inl e₁ ↦ elim (Bool-cases os.calloc_check) [
        | inr e₂ ↦ (refused sized rc_sysfail, ground (arith, filled), (sizes.0, sizes.1, (λ x. cc)))
        | inl e₂ ↦ elim (Bool-cases check.0) [
          | inl h ↦ (
            cached sized,
            ground (arith, filled, check.1),
            (
              sizes.0,
              sizes.1,
              marked-SpanPresent sized sizes.0 (λ c p q. buffered.2 c (check.2 h c p q)),
            ),
          )
          | inr h ↦
              (missing sized (length o), ground (arith, filled, check.1), (sizes.0, sizes.1, refl))
        ]
      ]
    ]
  ]
    where
      sized : Files
      sized = (size_files os (length o) fs).0

      sizes : IsSound o sized × Keeps o fs sized
      sizes = size_files-IsSound o os fs s

      filled : (length o == 0) ≡ false
      filled = ground arith

      buffered :
          (length (buffer o os.read_check sized) ≡ bitmap_bytes (num_blocks (length o)))
          × IsBytes (buffer o os.read_check sized)
          × ((b : ℕ)
              → bit_at (buffer o os.read_check sized) b ≡ true
              → bit_at (content sized.bitmap_file) b ≡ true)
      buffered = buffer_lem o os.read_check sized sizes.0

      check :
          (hit : Bool) × (blocks_set
              (buffer o os.read_check sized)
              block_start
              (rounds block_start block_end)
            ≡ returned hit)
          × (hit ≡ true
              → AllMarked (buffer o os.read_check sized) block_start (rounds block_start block_end))
          × (AllMarked (buffer o os.read_check sized) block_start (rounds block_start block_end)
              → hit ≡ true)
      check =
          blocks_set_lem (buffer o os.read_check sized) block_start (rounds block_start block_end)
            (omega (arith, buffered.0, blocks_fit (length o) block_end small inside))

  pub prepare-Finds :
      (os : Answers) (fs : Files)
      → IsSound o fs
      → (p : Prepared) × (prepare os block_start block_end fs ≡ returned p) × Finds fs p
  unfolding prepare
  prepare-Finds os fs s =
      subst
        (λ n.
          (p : Prepared) × (prepare_sized os block_start block_end n fs ≡ returned p) × Finds fs p)
        (ap (λ f. length (content f)) (sym s.origin)) (prepare_sized-Finds os fs s)

  pub probe_lem :
      (os : Answers) (fs : Files)
      → IsSound o fs
      → (hit : Bool) × (probe os block_start block_end fs ≡ returned hit)
        × (hit ≡ true → SpanPresent o block_start block_end fs)
  unfolding probe
  probe_lem os fs s = elim (Bool-cases tried) [
    | inr e ↦ rw e (false, refl, λ h. cc)
    | inl e ↦
        let (hit, runs, sound, _) =
          blocks_set_lem bitmap block_start (rounds block_start block_end) (ground arith) in
        rw e (hit, runs, λ h. marked-SpanPresent fs s (sound h))
  ]
    where
      bitmap : List ℕ
      bitmap = content fs.bitmap_file

      tried : Bool
      tried = ltb (block_end / 8) (length bitmap) && os.malloc_probe && os.read_probe

  pub fetch_and_mark-IsSound :
      (os : Answers) (fs : Files)
      → IsSound o fs
      → (r : Files × Rc) × (fetch_and_mark os block_start block_end (length o) fs ≡ returned r)
        × IsSound o r.0
        × Keeps o fs r.0
        × (r.1 ≡ rc_ok → SpanPresent o block_start block_end r.0)
  unfolding fetch_and_mark
  fetch_and_mark-IsSound os fs s =
      let (keeps, _, _, present) =
        fetch_span-Present o os block_start block_end fs s.origin small inside ordered in
      let fetched = fetch_span os block_start block_end (length o) fs in
      let sound = fetch_span-IsSound o os block_start block_end fs s small inside ordered in
      elim (Bool-cases (is_error fetched.1)) [
        | inl e ↦ rw e (fetched, refl, sound, keeps, present)
        | inr e ↦
            let (r, runs, marked, same_local) =
              mark_span-IsSound o os block_start block_end fetched.0 sound small inside ordered
                (present (ok_of_not_error fetched.1 e)) in
            rw (e, runs)
              (
                r,
                refl,
                marked,
                (λ i below h. rw same_local (keeps i below h)),
                (λ _ i p q below.
                    rw same_local (present (ok_of_not_error fetched.1 e) i p q below)),
              )
      ]

  -- From the second check to the end.
  continue_from-IsSound :
      (os : Answers) (fs : Files) (p : Prepared)
      → Finds fs p
      → (r : Files × Rc) × (continue_from os block_start block_end p ≡ returned r)
        × IsSound o r.0
        × (r.1 ≡ rc_ok → SpanPresent o block_start block_end r.0)
  continue_from-IsSound os fs (refused fs' rc) f = ((fs', rc), refl, f.0, λ e. absurd (f.2 e))
  continue_from-IsSound os fs (cached fs') f = ((fs', rc_ok), refl, f.0, λ _. f.2)
  continue_from-IsSound os fs (missing fs' n) f =
      let (r, runs, sound, _, present) = fetch_and_mark-IsSound os fs' f.0 in
      (r, rw f.2 runs, sound, present)

  -- From the first check to the end.
  pub search_and_fill-IsSound :
      (os : Answers) (fs : Files)
      → IsSound o fs
      → (r : Files × Rc) × (search_and_fill os block_start block_end fs ≡ returned r)
        × IsSound o r.0
        × (r.1 ≡ rc_ok → SpanPresent o block_start block_end r.0)
  unfolding search_and_fill
  search_and_fill-IsSound os fs s =
      let (hit, probes, present) = probe_lem os fs s in
      let (p, prepares, finds) = prepare-Finds os fs s in
      let (r, runs, sound, last) = continue_from-IsSound os fs p finds in
      elim (Bool-cases hit) [
        | inl e ↦ ((fs, rc_ok), rw (probes, e), s, λ _. present e)
        | inr e ↦ (r, rw (probes, e, prepares) runs, sound, last)
      ]
