-- ===== src/RangeCache/Sound.antt =====
-- The invariant of the three files: a marked block of the local file holds the origin's bytes.
-- Each step of the code keeps the bytes that are right, and the invariant.
use dyad.Prelude.{
  ℕ, ◌+◌, ◌*◌, ◌≤◌, ◌<◌, ◌≡◌, refl, ◌∙◌, inl, inr, true, leb, List, some, length, get_elem?,
  Bool-cases,
}
use dyad.RangeCache.{
  Files, Answers, content, block_size, num_blocks, bitmap_bytes, resized, size_files, with_bitmap,
}
use dyad.RangeCache.Slots.{get_elem?-resized, entry_at, lt_of_entry}
use dyad.RangeCache.Bitmap.{bit_at, IsBytes}
use dyad.RangeCache.Storage.{bit_at-resized, IsBytes-resized}

module _ (o : List ℕ) where
  -- The local file has the origin's byte at `i`.
  abbrev pub Present : Files → ℕ → Type 0
  Present fs i = get_elem? (content fs.local_file) i ≡ get_elem? o i

  pub record IsSound (fs : Files) : Type 0 where
    pub origin : fs.origin_file ≡ some o
    pub bytes : IsBytes (content fs.bitmap_file)
    pub marked :
        (b i : ℕ)
        → bit_at (content fs.bitmap_file) b ≡ true
        → b * block_size ≤ i
        → i < (b + 1) * block_size
        → i < length o
        → Present fs i

  -- Right bytes stay right.
  abbrev pub Keeps : Files → Files → Type 0
  Keeps fs fs' = (i : ℕ) → i < length o → Present fs i → Present fs' i

  pub there :
      (fs : Files) (i : ℕ) → i < length o → Present fs i → i < length (content fs.local_file)
  there fs i below h =
      let (x, at) = entry_at o i below in lt_of_entry (content fs.local_file) i (h ∙ at)

  -- A step that makes no mark and keeps right bytes keeps the invariant.
  pub IsSound-Keeps :
      {fs fs' : Files}
      → IsSound fs
      → fs'.origin_file ≡ fs.origin_file
      → IsBytes (content fs'.bitmap_file)
      → ((b : ℕ)
          → bit_at (content fs'.bitmap_file) b ≡ true
          → bit_at (content fs.bitmap_file) b ≡ true)
      → Keeps fs fs'
      → IsSound fs'
  IsSound-Keeps s same bytes marks keeps = record {
    origin = same ∙ s.origin;
    bytes = bytes;
    marked = λ b i m p q below. keeps i below (s.marked b i (marks b m) p q below);
  }

  pub with_bitmap-IsSound : {fs : Files} → IsSound fs → IsSound (with_bitmap fs)
  unfolding with_bitmap
  with_bitmap-IsSound s = record { origin = s.origin; bytes = s.bytes; marked = s.marked }

  resized-Keeps :
      (fs : Files)
      → Keeps fs (record fs { local_file = some (resized (length o) (content fs.local_file)) })
  resized-Keeps fs i below h =
      get_elem?-resized (length o) (content fs.local_file) i below (there fs i below h) ∙ h

  pub size_files-IsSound :
      (os : Answers) (fs : Files)
      → IsSound fs
      → IsSound (size_files os (length o) fs).0 × Keeps fs (size_files os (length o) fs).0
  unfolding size_files
  size_files-IsSound os fs s = elim (Bool-cases (leb bytes (length (content fs.bitmap_file)))) [
    | inl e ↦ rw e (s, λ i below h. h)
    | inr e ↦ elim (Bool-cases os.open_size) [
      | inr e₁ ↦ rw (e, e₁) (s, λ i below h. h)
      | inl e₁ ↦ elim (Bool-cases os.truncate_local) [
        | inr e₂ ↦
            rw (e, e₁, e₂)
              (IsSound-Keeps s refl s.bytes (λ b m. m) (λ i below h. h), λ i below h. h)
        | inl e₂ ↦ elim (Bool-cases os.truncate_bitmap) [
          | inr e₃ ↦
              rw (e, e₁, e₂, e₃)
                (IsSound-Keeps s refl s.bytes (λ b m. m) (resized-Keeps fs), resized-Keeps fs)
          | inl e₃ ↦
              rw (e, e₁, e₂, e₃)
                (
                  IsSound-Keeps s refl (IsBytes-resized bytes (content fs.bitmap_file) s.bytes)
                      (bit_at-resized bytes (content fs.bitmap_file)) (resized-Keeps fs),
                  resized-Keeps fs,
                )
        ]
      ]
    ]
  ]
    where
      bytes : ℕ
      bytes = bitmap_bytes (num_blocks (length o))

  -- All bytes of the blocks from `block_start` to `block_end`.
  abbrev pub SpanPresent : ℕ → ℕ → Files → Type 0
  SpanPresent block_start block_end fs =
      (i : ℕ)
      → block_start * block_size ≤ i
      → i < (block_end + 1) * block_size
      → i < length o
      → Present fs i
