-- ===== src/RangeCache/Mark.antt =====
-- Reading the bitmap into a buffer, and marking a span whose bytes are right.
use dyad.Prelude.{
  ℕ, ◌+◌, ◌*◌, ◌^◌, ◌≤◌, ◌<◌, ◌≡◌, refl, inl, inr, Bool, true, false, ◌||◌, ◌&&◌, leb, ltb,
  if◌then◌else◌, List, some, arith, length, replicate, length-replicate, Bool-cases,
}
use dyad.Prelude.Run.{returned}
use dyad.Core.Codes.{Rc, rc_ok, rc_badfio, rc_sysfail}
use dyad.RangeCache.{
  Files, Answers, content, block_size, num_blocks, bitmap_bytes, resized, write_at, mark_span,
  rounds,
}
use dyad.RangeCache.Slots.{length-resized}
use dyad.RangeCache.Bitmap.{bit_at, IsBytes, set_blocks_lem}
use dyad.RangeCache.Bounds.{blocks_fit}
use dyad.RangeCache.Storage.{
  bit_at-resized, bit_at-zeros, IsBytes-resized, IsBytes-zeros, bit_at-write_at, IsBytes-write_at,
}
use dyad.RangeCache.Sound.{IsSound, SpanPresent}

module _ (o : List ℕ) where
  -- The bitmap buffer: what was read, or zeros.
  abbrev pub buffer : Bool → Files → List ℕ
  buffer got fs =
      let bytes = bitmap_bytes (num_blocks (length o)) in
      if got then resized bytes (content fs.bitmap_file) else replicate bytes 0

  pub buffer_lem :
      (got : Bool) (fs : Files)
      → IsSound o fs
      → (length (buffer got fs) ≡ bitmap_bytes (num_blocks (length o)))
        × IsBytes (buffer got fs)
        × ((b : ℕ) → bit_at (buffer got fs) b ≡ true → bit_at (content fs.bitmap_file) b ≡ true)
  buffer_lem true fs s = (
    length-resized (bitmap_bytes (num_blocks (length o))) (content fs.bitmap_file),
    IsBytes-resized (bitmap_bytes (num_blocks (length o))) (content fs.bitmap_file) s.bytes,
    bit_at-resized (bitmap_bytes (num_blocks (length o))) (content fs.bitmap_file),
  )
  buffer_lem false fs s = (
    length-replicate (bitmap_bytes (num_blocks (length o))) 0,
    IsBytes-zeros (bitmap_bytes (num_blocks (length o))),
    λ b h. ground (arith, bit_at-zeros (bitmap_bytes (num_blocks (length o))) b),
  )

  -- Marking blocks whose bytes are right.
  marked-IsSound :
      (block_start block_end : ℕ) (got : Bool) (fs : Files) (out : List ℕ)
      → IsSound o fs
      → SpanPresent o block_start block_end fs
      → IsBytes out
      → ((c : ℕ)
          → bit_at out c ≡ (
              (leb block_start c && ltb c (block_start + rounds block_start block_end))
              || bit_at (buffer got fs) c))
      → IsSound o (record fs { bitmap_file = some (write_at 0 out (content fs.bitmap_file)) })
  marked-IsSound block_start block_end got fs out s present out_bytes bits = record {
    origin = s.origin;
    bytes = IsBytes-write_at out (content fs.bitmap_file) out_bytes s.bytes;
    marked = λ b i m p q below. elim (bit_at-write_at out (content fs.bitmap_file) b m) [
      | inr old ↦ s.marked b i old p q below
      | inl new ↦ elim (Bool-cases (bit_at (buffer got fs) b)) [
        | inl old ↦ s.marked b i ((buffer_lem got fs s).2 b old) p q below
        | inr fresh ↦
            let within : (block_start ≤ b) × (b ≤ block_end) = ground (arith, bits b) in
            present i (omega arith) (omega arith) below
      ]
    ];
  }

  pub mark_span-IsSound :
      (os : Answers) (block_start block_end : ℕ) (fs : Files)
      → IsSound o fs
      → length o + block_size < 2 ^ 64
      → block_end * block_size < length o
      → block_start ≤ block_end
      → SpanPresent o block_start block_end fs
      → (r : Files × Rc) × (mark_span os block_start block_end (length o) fs ≡ returned r)
        × IsSound o r.0
        × (r.0.local_file ≡ fs.local_file)
  unfolding mark_span
  mark_span-IsSound os block_start block_end fs s small inside ordered present =
      let (len, bytes, _) = buffer_lem os.read_record fs s in
      let (out, runs, _, out_bytes, bits) =
        set_blocks_lem (buffer os.read_record fs) block_start (rounds block_start block_end) bytes
          (omega (arith, len, blocks_fit (length o) block_end small inside)) in
      elim (Bool-cases os.excl_lock_again) [
        | inr e ↦ rw e ((fs, rc_badfio), refl, s, refl)
        | inl e ↦ elim (Bool-cases os.calloc_record) [
          | inr e₁ ↦ rw (e, e₁) ((fs, rc_sysfail), refl, s, refl)
          | inl e₁ ↦ elim (Bool-cases os.write_bitmap) [
            | inr e₂ ↦ rw (e, e₁, e₂, runs) ((fs, rc_badfio), refl, s, refl)
            | inl e₂ ↦
                rw (e, e₁, e₂, runs)
                  (
                    (
                      record fs { bitmap_file = some (write_at 0 out (content fs.bitmap_file)) },
                      rc_ok,
                    ),
                    refl,
                    marked-IsSound block_start block_end os.read_record fs out s present out_bytes
                        bits,
                    refl,
                  )
          ]
        ]
      ]
