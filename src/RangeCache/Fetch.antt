-- ===== src/RangeCache/Fetch.antt =====
-- `range_cache_fetch_span`: it writes the whole span in its place, or changes no file.
use native.Mathlib.Decide.{dec_lt}
use dyad.Prelude.{
  ℕ, ◌+◌, ◌-◌, ◌*◌, ◌^◌, ◌≤◌, ◌<◌, ◌≡◌, ◌≢◌, refl, ◌∙◌, ◌⊎◌, inl, inr, Bool, not, ◌&&◌, leb, ltb,
  ◌==◌, if◌then◌else◌, List, some, arith, length, drop, length-take, Option-cases, Bool-cases,
}
use dyad.Core.Codes.{rc_ok}
use dyad.RangeCache.{Files, Answers, block_size, u64, write_at, read_at, fetch_span}
use dyad.RangeCache.Slots.{
  get_elem?-write_at, get_elem?-write_at_before, get_elem?-write_at_after, get_elem?-read_at,
}
use dyad.RangeCache.Sound.{Present, IsSound, Keeps, there, SpanPresent, IsSound-Keeps}

module _ (o : List ℕ) where
  -- A piece of the origin written in its place.
  module _ (off n : ℕ) (fs : Files) (local : List ℕ) (is_local : fs.local_file ≡ some local) where
    abbrev piece : List ℕ
    piece = read_at off n o

    abbrev written : Files
    written = record fs { local_file = some (write_at off piece local) }

    length-piece : length piece ≤ n
    length-piece = omega (arith, length-take n (drop off o))

    piece-Present : (i : ℕ) → off ≤ i → i < off + length piece → Present o written i
    piece-Present i p q =
        get_elem?-write_at off piece local i (i - off) (omega arith) (omega arith)
        ∙ get_elem?-read_at off n o i (i - off) (omega arith) (omega (arith, length-piece))

    written-Keeps : Keeps o fs written
    written-Keeps i below h = elim (dec_lt i off) [
      | yes before ↦
          get_elem?-write_at_before off piece local i before (rw is_local at (there o fs i below h))
          ∙ (rw is_local at h)
      | no behind ↦ elim (dec_lt i (off + length piece)) [
        | yes inside ↦ piece-Present i (omega arith) inside
        | no after ↦ get_elem?-write_at_after off piece local i (omega arith) ∙ (rw is_local at h)
      ]
    ]

  abbrev span_off : ℕ → ℕ
  span_off block_start = u64 (block_start * block_size)

  abbrev span_len : ℕ → ℕ → ℕ
  span_len block_start block_end =
      let unclamped = u64 ((block_end + 1) * block_size) in
      (if ltb (length o) unclamped then length o else unclamped) - span_off block_start

  -- The conditions under which the whole span is copied into a local file that exists.
  passes : Answers → ℕ → ℕ → Bool
  passes os block_start block_end =
      not (leb (span_len block_start block_end) 0)
      && os.malloc_span
      && os.open_origin
      && os.read_origin
      && length (read_at (span_off block_start) (span_len block_start block_end) o)
        == span_len block_start block_end
      && os.open_local
      && os.write_local

  -- The fetch fails and changes no file, or it writes the whole span.
  fetch_span-cases :
      (os : Answers) (block_start block_end : ℕ) (fs : Files)
      → fs.origin_file ≡ some o
      → let r = fetch_span os block_start block_end (length o) fs in
        let off = span_off block_start in
        let n = span_len block_start block_end in
        ((r.0 ≡ fs) × (r.1 ≢ rc_ok))
        ⊎ ((local : List ℕ) × (is_local : fs.local_file ≡ some local) × (r
              ≡ (written off n fs local is_local, rc_ok))
            × (length (read_at off n o) ≡ n))
  unfolding fetch_span passes
  fetch_span-cases os block_start block_end fs origin = elim (Option-cases fs.local_file) [
    | inl e ↦ inl (ground arith, ground arith)
    | inr (local, e) ↦ elim (Bool-cases (passes os block_start block_end)) [
      | inr bad ↦ inl (ground arith, ground arith)
      | inl good ↦ inr (local, e, ground arith, ground arith)
    ]
  ]

  pub fetch_span-Present :
      (os : Answers) (block_start block_end : ℕ) (fs : Files)
      → fs.origin_file ≡ some o
      → length o + block_size < 2 ^ 64
      → block_end * block_size < length o
      → block_start ≤ block_end
      → let r = fetch_span os block_start block_end (length o) fs in
        Keeps o fs r.0
        × (r.0.origin_file ≡ fs.origin_file)
        × (r.0.bitmap_file ≡ fs.bitmap_file)
        × (r.1 ≡ rc_ok → SpanPresent o block_start block_end r.0)
  fetch_span-Present os block_start block_end fs origin small inside ordered =
      elim (fetch_span-cases os block_start block_end fs origin) [
        | inl (same, failed) ↦ rw same ((λ i below h. h), refl, refl, λ e. absurd (failed e))
        | inr (local, is_local, runs, whole) ↦
            let off = span_off block_start in
            let n = span_len block_start block_end in
            rw runs (
              written-Keeps off n fs local is_local,
              refl,
              refl,
              λ _ i p q below.
                  piece-Present off n fs local is_local i (omega arith) (ground (arith, whole)),
            )
      ]

  pub fetch_span-IsSound :
      (os : Answers) (block_start block_end : ℕ) (fs : Files)
      → IsSound o fs
      → length o + block_size < 2 ^ 64
      → block_end * block_size < length o
      → block_start ≤ block_end
      → IsSound o (fetch_span os block_start block_end (length o) fs).0
  fetch_span-IsSound os block_start block_end fs s small inside ordered =
      let (keeps, same_origin, same_bitmap, _) =
        fetch_span-Present os block_start block_end fs s.origin small inside ordered in
      IsSound-Keeps o s same_origin (rw same_bitmap s.bytes) (λ b m. rw same_bitmap at m) keeps
