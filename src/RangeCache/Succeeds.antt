-- ===== src/RangeCache/Succeeds.antt =====
-- The parts of `dyad_range_cache_ensure` when no system call fails.
use dyad.Prelude.{
  ℕ, ◌+◌, ◌-◌, ◌*◌, ◌^◌, ◌≤◌, ◌<◌, ◌≡◌, ◌≢◌, refl, sym, ap, subst, ◌⊎◌, inl, inr, true, false, ltb,
  leb, ◌==◌, if◌then◌else◌, List, some, none, arith, length, drop, length-take, length-drop,
  Bool-cases, Option-cases,
}
use dyad.Prelude.Run.{returned}
use dyad.Core.Codes.{rc_ok}
use dyad.RangeCache.{
  Files, Answers, Prepared, refused, cached, missing, content, block_size, u64, num_blocks,
  bitmap_bytes, write_at, read_at, size_files, prepare, prepare_sized, mark_span, fetch_span,
  fetch_and_mark, continue_from, search_and_fill, rounds,
}
use dyad.RangeCache.Bitmap.{blocks_set_lem, set_blocks_lem}
use dyad.RangeCache.Storage.{bit_at-write_at_new}
use dyad.RangeCache.Bounds.{blocks_fit}
use dyad.RangeCache.Fetch.{fetch_span-IsSound}
use dyad.RangeCache.Mark.{buffer, buffer_lem}
use dyad.RangeCache.Sound.{IsSound, size_files-IsSound}
use dyad.RangeCache.Hit.{SpanMarked, probe-SpanMarked}

abbrev pub all_succeed : Answers
all_succeed = record {
  open_bitmap = true;
  shared_lock = true;
  malloc_probe = true;
  read_probe = true;
  excl_lock = true;
  open_size = true;
  truncate_local = true;
  truncate_bitmap = true;
  calloc_check = true;
  read_check = true;
  malloc_span = true;
  open_origin = true;
  read_origin = true;
  open_local = true;
  write_local = true;
  excl_lock_again = true;
  calloc_record = true;
  read_record = true;
  write_bitmap = true;
}

-- The local file exists, or the bitmap is not sized yet, and then the call creates the local file.
abbrev pub HasLocal : ℕ → Files → Type 0
HasLocal origin_size fs =
    (fs.local_file ≢ none)
    ⊎ (length (content fs.bitmap_file) < bitmap_bytes (num_blocks origin_size))

module _ (o : List ℕ) (block_start block_end : ℕ) (small : length o + block_size < 2 ^ 64)
    (inside : block_start * block_size < length o) (ordered : block_start ≤ block_end)
    (end_small : (block_end + 1) * block_size < 2 ^ 64) where
  pub fetch_span-succeeds :
      (fs : Files)
      → fs.origin_file ≡ some o
      → fs.local_file ≢ none
      → (fs' : Files) × (fetch_span all_succeed block_start block_end (length o) fs ≡ (fs', rc_ok))
        × (fs'.bitmap_file ≡ fs.bitmap_file)
        × (fs'.origin_file ≡ fs.origin_file)
  unfolding fetch_span
  fetch_span-succeeds fs origin has = elim (Option-cases fs.local_file) [
    | inl e ↦ absurd (has e)
    | inr (local, e) ↦ (
      record fs { local_file = some (write_at off (read_at off n (content fs.origin_file)) local) },
      ground (arith, e, whole, filled),
      refl,
      refl,
    )
  ]
    where
      off : ℕ
      off = u64 (block_start * block_size)

      end : ℕ
      end =
          let unclamped = u64 ((block_end + 1) * block_size) in
          if ltb (length o) unclamped then length o else unclamped

      n : ℕ
      n = end - off

      same_size : length (content fs.origin_file) ≡ length o
      same_size = ap (λ f. length (content f)) origin

      filled : leb end off ≡ false
      filled = ground arith

      short : end ≤ length o
      short = ground arith

      whole : (length (read_at off n (content fs.origin_file)) == n) ≡ true
      whole = ground (
        arith,
        length-take n (drop off (content fs.origin_file)),
        length-drop off (content fs.origin_file),
        same_size,
        short,
      )

module _ (o : List ℕ) (block_start block_end : ℕ) (small : length o + block_size < 2 ^ 64)
    (inside : block_end * block_size < length o) (ordered : block_start ≤ block_end) where
  mark_span-succeeds :
      (fs : Files)
      → IsSound o fs
      → (fs' : Files) × (mark_span all_succeed block_start block_end (length o) fs
          ≡ returned (fs', rc_ok))
        × (fs'.bitmap_file ≢ none)
        × SpanMarked block_start block_end fs'
  unfolding mark_span
  mark_span-succeeds fs s =
      let (len, bytes, _) = buffer_lem o true fs s in
      let (out, runs, _, _, bits) =
        set_blocks_lem (buffer o true fs) block_start (rounds block_start block_end) bytes
          (omega (arith, len, blocks_fit (length o) block_end small inside)) in
      (
        record fs { bitmap_file = some (write_at 0 out (content fs.bitmap_file)) },
        rw runs refl,
        (λ e. cc),
        (λ c p q. bit_at-write_at_new out (content fs.bitmap_file) c (ground (arith, bits c))),
      )

  -- The fetch and the mark of a span that is not marked.
  fetch_and_mark-succeeds :
      (fs : Files)
      → IsSound o fs
      → fs.local_file ≢ none
      → (fs' : Files) × (fetch_and_mark all_succeed block_start block_end (length o) fs
          ≡ returned (fs', rc_ok))
        × (fs'.bitmap_file ≢ none)
        × SpanMarked block_start block_end fs'
  unfolding fetch_and_mark
  fetch_and_mark-succeeds fs s has =
      let (fetched, fetches, same, origin) =
        fetch_span-succeeds o block_start block_end small (omega arith) ordered (omega arith) fs
          s.origin has in
      let (marked, marks, exists, all) = mark_span-succeeds fetched (
        subst (λ r. IsSound o r.0) fetches
          (fetch_span-IsSound o all_succeed block_start block_end fs s small inside ordered)) in
      (marked, rw fetches marks, exists, all)

  size_files-succeeds :
      (fs : Files)
      → HasLocal (length o) fs
      → (fs.bitmap_file ≢ none)
      → let r = size_files all_succeed (length o) fs in
        (r.1 ≡ true) × (r.0.local_file ≢ none) × (r.0.bitmap_file ≢ none)
  unfolding size_files
  size_files-succeeds fs (inl has) made =
      elim (Bool-cases
        (leb (bitmap_bytes (num_blocks (length o))) (length (content fs.bitmap_file)))) [
          | inl e ↦ rw e (refl, has, made)
          | inr e ↦ rw e (refl, (λ x. cc), (λ x. cc))
        ]
  size_files-succeeds fs (inr short) made =
      elim (Bool-cases
        (leb (bitmap_bytes (num_blocks (length o))) (length (content fs.bitmap_file)))) [
          | inl e ↦ absurd (ground arith)
          | inr e ↦ rw e (refl, (λ x. cc), (λ x. cc))
        ]

  -- What the second check finds when nothing fails.
  abbrev Goes : Prepared → Type 0
  Goes (refused fs' rc) = ⊥
  Goes (cached fs') = (fs'.bitmap_file ≢ none) × SpanMarked block_start block_end fs'
  Goes (missing fs' n) = IsSound o fs' × (n ≡ length o) × (fs'.local_file ≢ none)

  prepare_sized-succeeds :
      (fs : Files)
      → IsSound o fs
      → HasLocal (length o) fs
      → (fs.bitmap_file ≢ none)
      → (p : Prepared) × (prepare_sized all_succeed block_start block_end (length o) fs
          ≡ returned p)
        × Goes p
  unfolding prepare_sized
  prepare_sized-succeeds fs s has made =
      let sized = (size_files all_succeed (length o) fs).0 in
      let sound = (size_files-IsSound o all_succeed fs s).0 in
      let (done, local, bitmap) = size_files-succeeds fs has made in
      let filled : (length o == 0) ≡ false = ground arith in
      let (len, _, old) = buffer_lem o true sized sound in
      let (hit, runs, all, _) =
        blocks_set_lem (buffer o true sized) block_start (rounds block_start block_end)
          (omega (arith, len, blocks_fit (length o) block_end small inside)) in
      elim (Bool-cases hit) [
        | inl e ↦ (
          cached sized,
          ground (arith, filled, done, runs, e),
          (bitmap, (λ c p q. old c (all e c p q))),
        )
        | inr e ↦
            (missing sized (length o), ground (arith, filled, done, runs, e), (sound, refl, local))
      ]

  prepare-succeeds :
      (fs : Files)
      → IsSound o fs
      → HasLocal (length o) fs
      → (fs.bitmap_file ≢ none)
      → (p : Prepared) × (prepare all_succeed block_start block_end fs ≡ returned p) × Goes p
  unfolding prepare
  prepare-succeeds fs s has made =
      subst
        (λ n.
          (p : Prepared) × (prepare_sized all_succeed block_start block_end n fs ≡ returned p)
          × Goes p)
        (ap (λ f. length (content f)) (sym s.origin)) (prepare_sized-succeeds fs s has made)

  continue_from-succeeds :
      (p : Prepared)
      → Goes p
      → (fs' : Files) × (continue_from all_succeed block_start block_end p ≡ returned (fs', rc_ok))
        × (fs'.bitmap_file ≢ none)
        × SpanMarked block_start block_end fs'
  continue_from-succeeds (refused fs' rc) g = absurd g
  continue_from-succeeds (cached fs') g = (fs', refl, g.0, g.1)
  continue_from-succeeds (missing fs' n) g =
      let (r, runs, made, all) = fetch_and_mark-succeeds fs' g.0 g.2 in (r, rw g.1 runs, made, all)

  pub search_and_fill-succeeds :
      (fs : Files)
      → IsSound o fs
      → HasLocal (length o) fs
      → (fs.bitmap_file ≢ none)
      → (fs' : Files) × (search_and_fill all_succeed block_start block_end fs
          ≡ returned (fs', rc_ok))
        × (fs'.bitmap_file ≢ none)
        × SpanMarked block_start block_end fs'
  unfolding search_and_fill
  search_and_fill-succeeds fs s has made =
      let (hit, probes, all) = probe-SpanMarked all_succeed block_start block_end fs ordered in
      let (p, prepares, goes) = prepare-succeeds fs s has made in
      let (r, runs, made', all') = continue_from-succeeds p goes in
      elim (Bool-cases hit) [
        | inl e ↦ (fs, rw (probes, e), made, all e)
        | inr e ↦ (r, rw (probes, e, prepares) runs, made', all')
      ]
