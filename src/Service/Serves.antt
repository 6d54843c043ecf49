-- ===== src/Service/Serves.antt =====
-- The bytes that a worker reads for a request are the origin's.
use dyad.Prelude.{
  ℕ, zero, suc, ◌+◌, ◌-◌, ◌^◌, ◌≤◌, ◌<◌, ◌≡◌, sym, ap, ◌∙◌, ◌⊎◌, inl, inr, true, leb, ◌==◌, List,
  [], ◌++◌, some, arith, if◌then◌else◌, length, take, drop, min, length-take, length-drop,
  take-more, drop-drop, Bool-cases, Option-cases,
}
use dyad.Prelude.Run.{returned}
use dyad.Core.Codes.{rc_ok, is_error, ok_of_not_error}
use dyad.RangeCache.{Files, content, read_at, block_size}
use dyad.RangeCache.Slots.{entry_at, lt_of_entry}
use dyad.RangeCache.Sound.{IsSound, Present}
use dyad.RangeCache.Reads.{read_at-Present}
use dyad.RangeCache.Ensure.{dyad_range_cache_ensure_lem}
use dyad.Client.Store.{granularity}
use dyad.Service.{
  WorkItem, Reader, read_all, read_failed, WorkerCalls, clamped, is_negative, read_chunks,
  read_range, with_error, dyad_fetch_worker_process,
}

-- A call answers with -1, or with at most as many bytes as it is asked for.
abbrev pub IsPread : Reader → Type 0
IsPread pread = (call n k : ℕ) → pread call n ≡ some k → k ≤ n

-- `read_at` in two parts.
read_at-more :
    (file : List ℕ) (offset w k : ℕ)
    → read_at offset w file ++ read_at (offset + w) k file ≡ read_at offset (w + k) file
read_at-more file offset w k =
    ap (λ rest. take w (drop offset file) ++ take k rest) (sym (drop-drop file offset w))
    ∙ take-more (drop offset file) w k

-- The loop ends within a round for each byte: a call failed, or the range was read.
pub read_chunks_lem :
    (fuel : ℕ) (pread : Reader) (call : ℕ) (file : List ℕ) (offset range_len read_data : ℕ)
    → IsPread pread
    → read_data ≤ range_len
    → range_len ≤ fuel + read_data
    → (read_chunks fuel pread call file offset range_len read_data (read_at offset read_data file)
        ≡ read_all (read_at offset range_len file))
      ⊎ (read_chunks fuel pread call file offset range_len read_data (read_at offset read_data file)
          ≡ read_failed)
unfolding read_chunks
read_chunks_lem zero pread call file offset range_len read_data is within enough =
    let all : read_data ≡ range_len = omega arith in
    let at_end : leb range_len read_data ≡ true = ground arith in
    inl (rw (at_end, read_chunks) (ap (λ n. read_all (read_at offset n file)) all))
read_chunks_lem (suc fuel) pread call file offset range_len read_data is within enough =
    elim (Bool-cases (leb range_len read_data)) [
      | inl e ↦
          let all : read_data ≡ range_len = ground arith in
          inl (rw (e, read_chunks) (ap (λ n. read_all (read_at offset n file)) all))
      | inr e ↦ elim (Option-cases (pread call (min (range_len - read_data) granularity))) [
        | inl f ↦ inr (rw (e, f, read_chunks))
        | inr (k, f) ↦ elim (Bool-cases (k == 0)) [
          | inl z ↦ inr (rw (e, f, z, read_chunks))
          | inr z ↦
              let most : k ≤ range_len - read_data = omega (arith, is call _ k f) in
              let pos : 0 < k = ground arith in
              rw (e, f, z, read_at-more file offset read_data k, read_chunks)
                (read_chunks_lem fuel pread (call + 1) file offset range_len (read_data + k) is
                  (omega arith) (omega arith))
        ]
      ]
    ]

-- A request within the file is served in full.
pub clamped_inside :
    (offset len size : ℕ)
    → (len ≡ 0) ⊎ (offset + len ≤ size)
    → offset + len < 2 ^ 63
    → clamped offset len size ≡ len
unfolding clamped
clamped_inside offset len size (inl none_asked) small = ground arith
clamped_inside offset len size (inr fits) small = elim (Bool-cases (leb size offset)) [
  | inl e ↦ ground arith
  | inr e ↦ ground arith
]

-- What an item that is done holds.
module _ (o : List ℕ) (item : WorkItem) where
  abbrev pub Served : WorkItem → Type 0
  Served done =
      done.rc ≡ rc_ok
      → (done.inbuf ≡ read_at item.offset item.range_length o)
        × (done.range_len ≡ item.range_length)

  module _ (os : WorkerCalls) (fits : item.offset + item.range_length ≤ length o)
      (small : length o + block_size < 2 ^ 63) (is : IsPread os.pread)
      (enough : item.range_length ≤ os.fuel) where
    -- Right bytes at every index of the range: the local file reaches to its end.
    pub reaches :
        (fs : Files)
        → ((i : ℕ) → item.offset ≤ i → i < item.offset + item.range_length → Present o fs i)
        → (item.range_length ≡ 0)
          ⊎ (item.offset + item.range_length ≤ length (content fs.local_file))
    reaches fs present = elim (Bool-cases (item.range_length == 0)) [
      | inl e ↦ inl (ground arith)
      | inr e ↦
          let pos : 0 < item.range_length = ground arith in
          let last = item.offset + item.range_length - 1 in
          let (x, at) = entry_at o last (omega arith) in
          let there =
            lt_of_entry (content fs.local_file) last
              (present last (omega arith) (omega arith) ∙ at) in
          inr (omega (arith, there))
    ]

    read_range-Served :
        (fs : Files)
        → ((i : ℕ) → item.offset ≤ i → i < item.offset + item.range_length → Present o fs i)
        → (done : WorkItem) × (read_range os item fs ≡ some done) × Served done
    unfolding read_range
    read_range-Served fs present =
        let file = content fs.local_file in
        let clamp : clamped item.offset item.range_length (length file) ≡ item.range_length =
          clamped_inside item.offset item.range_length (length file) (reaches fs present)
            (omega arith) in
        let rounds : (if is_negative (clamped item.offset item.range_length (length file))
              then 0
              else clamped item.offset item.range_length (length file))
            ≡ item.range_length =
          ground (arith, clamp) in
        let full : length (read_at item.offset item.range_length file) ≡ item.range_length =
          full_length file (reaches fs present) in
        elim (Bool-cases os.open_file) [
          | inr e ↦ (with_error item, ground (arith, e), λ ok. cc)
          | inl e ↦ elim (Bool-cases (is_error os.shared_lock)) [
            | inl e₁ ↦ (with_error item, ground (arith, e, e₁), λ ok. cc)
            | inr e₁ ↦
                elim (read_chunks_lem os.fuel os.pread 0 file item.offset item.range_length 0 is
                  (omega arith) (omega arith)) [
                    | inl run ↦
                        let whole =
                          ap (λ n. read_chunks os.fuel os.pread 0 file item.offset n 0 []) rounds
                          ∙ run in
                        (
                          record item {
                            inbuf = read_at item.offset item.range_length file;
                            rc = rc_ok;
                            range_len = clamped item.offset item.range_length (length file);
                          },
                          ground (arith, e, e₁, whole),
                          λ _. (
                            read_at-Present o item.offset item.range_length fs present full,
                            clamp,
                          ),
                        )
                    | inr run ↦
                        let broken =
                          ap (λ n. read_chunks os.fuel os.pread 0 file item.offset n 0 []) rounds
                          ∙ run in
                        (with_error item, ground (arith, e, e₁, broken), λ ok. cc)
                  ]
          ]
        ]
      where
        full_length :
            (file : List ℕ)
            → (item.range_length ≡ 0) ⊎ (item.offset + item.range_length ≤ length file)
            → length (read_at item.offset item.range_length file) ≡ item.range_length
        full_length file (inl e) =
            omega (arith, e, length-take item.range_length (drop item.offset file))
        full_length file (inr h) = omega (
          arith,
          length-take item.range_length (drop item.offset file),
          length-drop item.offset file,
        )

    -- A worker that processes a request for a range within the origin, on sound files and with a
    -- `pread` that answers at most what it is asked for: whatever the other calls answer, it returns
    -- with the files sound, and if the item's code is DYAD_RC_OK, its buffer has exactly the bytes of
    -- the origin at that range. The origin's size, with one block, fits a ssize_t.
    pub dyad_fetch_worker_process_lem :
        (origin_fullpath : List ℕ) (fs : Files)
        → IsSound o fs
        → item.origin_fullpath ≡ some origin_fullpath
        → (fs' : Files) × ((done : WorkItem) × (dyad_fetch_worker_process os item fs
              ≡ returned (fs', some done))
            × IsSound o fs'
            × Served done)
    unfolding dyad_fetch_worker_process
    dyad_fetch_worker_process_lem origin_fullpath fs s has_origin =
        let ((fs', rc), runs, sound, present) =
          dyad_range_cache_ensure_lem o os.ensure item.fullpath origin_fullpath item.offset
            item.range_length fs s (omega arith) fits in
        elim (Bool-cases (is_error rc)) [
          | inl e ↦ (fs', (with_error item, ground (arith, has_origin, runs, e), sound, λ ok. cc))
          | inr e ↦
              let (done, reads, served) = read_range-Served fs' (present (ok_of_not_error rc e)) in
              (fs', (done, ground (arith, has_origin, runs, e, reads), sound, served))
        ]
