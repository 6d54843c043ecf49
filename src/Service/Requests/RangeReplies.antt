-- ===== src/Service/Requests/RangeReplies.antt =====
-- Every request for a range has one reply or goes to the workers, and the data sent are the origin's.
use dyad.Prelude.{
  ℕ, ◌+◌, ◌^◌, ◌≤◌, ◌<◌, ◌≡◌, refl, sym, ap, ◌⊎◌, inl, inr, true, false, not, ◌&&◌, ltb, ◌==◌, List,
  [], some, arith, if-lem, length, drop, length-take, length-drop, Bool-cases, Option-cases,
}
use dyad.Prelude.Run.{returned}
use dyad.Core.Codes.{rc_ok, is_error, ok_of_not_error}
use dyad.RangeCache.{Files, content, read_at, block_size}
use dyad.RangeCache.Sound.{IsSound, Present}
use dyad.RangeCache.Reads.{read_at-Present}
use dyad.RangeCache.Ensure.{dyad_range_cache_ensure_lem}
use dyad.Service.{WorkItem, clamped, is_negative}
use dyad.Service.Serves.{IsPread, clamped_inside, reaches}
use dyad.Service.Requests.{
  Handler, idle, error_wo_flock, receive, transmit, RangeRequestCalls, Handled, replied, queued,
  queue_range, serve_range, dyad_fetch_range_request_cb,
}
use dyad.Service.Requests.Replies.{
  Settled, without_flock, with_flock, transmit-Settled, read_bytes_lem,
}

module _ (r : RangeRequestCalls) (o : List ℕ) (fullpath origin : List ℕ) (offset len : ℕ)
    (fits : offset + len ≤ length o) (small : length o + block_size < 2 ^ 63)
    (is : IsPread r.os.pread) (enough : len ≤ r.os.fuel) where
  as_item : WorkItem
  as_item = record {
    fullpath = fullpath;
    origin_fullpath = some origin;
    offset = offset;
    range_length = len;
    inbuf = [];
    rc = rc_ok;
    range_len = 0;
  }

  serve_range_lem :
      (fs : Files)
      → ((i : ℕ) → offset ≤ i → i < offset + len → Present o fs i)
      → (h : Handler) × (serve_range r.os offset len (content fs.local_file) ≡ some h)
        × Settled (read_at offset len o) h
  unfolding serve_range as_item
  serve_range_lem fs present =
      let bytes = read_at offset len o in
      let file = content fs.local_file in
      let opened : Handler = record idle { fd = true } in
      let locked : Handler = record opened { locked = true } in
      let holding : Handler = record locked { buffer = true } in
      let reach : (len ≡ 0) ⊎ (offset + len ≤ length file) =
        reaches o as_item
          (record {
            ensure = r.ensure;
            open_file = true;
            shared_lock = rc_ok;
            pread = r.os.pread;
            fuel = r.os.fuel;
          })
          fits small is enough fs present in
      let clamp : clamped offset len (length file) ≡ len =
        clamped_inside offset len (length file) reach (omega arith) in
      let positive : is_negative len ≡ false = ground arith in
      elim (Bool-cases r.os.open_file) [
        | inr e ↦ (_, ground (arith, e), without_flock bytes r.os.errno idle refl refl refl refl)
        | inl e ↦ elim (Bool-cases (is_error r.os.shared_lock)) [
          | inl e₁ ↦ (_, ground (arith, e, e₁), with_flock bytes r.os.errno opened refl refl)
          | inr e₁ ↦ elim (Bool-cases (is_error r.os.get_buffer)) [
            | inl e₂ ↦ (_, ground (arith, e, e₁, e₂), with_flock bytes r.os.errno locked refl refl)
            | inr e₂ ↦ elim (Bool-cases (len == 0)) [
              | inl z ↦
                  let none_asked : [] ≡ bytes =
                    ap (λ n. read_at offset n o) (sym (zero_of len z)) in
                  (
                    transmit r.os bytes holding,
                    ground (arith, e, e₁, e₂, z, clamp, none_asked),
                    transmit-Settled bytes r.os holding refl refl,
                  )
              | inr z ↦ elim (read_bytes_lem r.os.pread r.os.fuel file offset len is enough) [
                | inr f ↦ (
                  _,
                  ground (arith, e, e₁, e₂, z, clamp, positive, f),
                  with_flock bytes r.os.errno holding refl refl,
                )
                | inl f ↦
                    let right = read_at-Present o offset len fs present (full file reach) in
                    (
                      transmit r.os bytes holding,
                      ground (arith, e, e₁, e₂, z, clamp, positive, f, right),
                      transmit-Settled bytes r.os holding refl refl,
                    )
              ]
            ]
          ]
        ]
      ]
    where
      zero_of : (n : ℕ) → (n == 0) ≡ true → n ≡ 0
      zero_of n h = ground arith

      full :
          (file : List ℕ)
          → (len ≡ 0) ⊎ (offset + len ≤ length file)
          → length (read_at offset len file) ≡ len
      full file (inl e) = omega (arith, e, length-take len (drop offset file))
      full file (inr h) = omega (arith, length-take len (drop offset file), length-drop offset file)

  abbrev pub Right : ℕ → Handled → Type 0
  Right num_fetch_workers (queued item) =
      (0 < num_fetch_workers)
      × (item.fullpath ≡ fullpath)
      × (item.origin_fullpath ≡ some origin)
      × (item.offset ≡ offset)
      × (item.range_length ≡ len)
  Right num_fetch_workers (replied h aborts) = Settled (read_at offset len o) h

  queue_range-Right :
      (num_fetch_workers : ℕ)
      → 0 < num_fetch_workers
      → Right num_fetch_workers (queue_range r fullpath (some origin) offset len)
  unfolding queue_range
  queue_range-Right n some_worker =
      let bytes = read_at offset len o in
      if-lem (Right n) (not r.calloc) (λ _. without_flock bytes 12 idle refl refl refl refl)
        (λ _.
          if-lem (Right n) (is_error r.detach)
            (λ _. without_flock bytes 71 idle refl refl refl refl)
            (λ _.
              if-lem (Right n) (is_error r.os.get_buffer)
                (λ _. without_flock bytes 12 idle refl refl refl refl)
                (λ _. (some_worker, refl, refl, refl, refl))))

  -- A request for a range within the origin, on sound files and with a `pread` that answers at most
  -- what it is asked for: whatever else the calls answer, the handler returns and leaves sound files.
  -- It has given the request as it came to the workers, of which there are some, or it has closed and
  -- unlocked the file and ended the stream once: by ENODATA behind one send of the origin's bytes at
  -- the range, or by an error with nothing sent. The origin's size, with one block, fits a ssize_t.
  pub dyad_fetch_range_request_cb_lem :
      (num_fetch_workers : ℕ) (fs : Files)
      → IsSound o fs
      → (fs' : Files) × ((handled : Handled) × (dyad_fetch_range_request_cb r num_fetch_workers
              fullpath
              (some origin)
              offset
              len
              fs
            ≡ returned (fs', some handled))
          × IsSound o fs'
          × Right num_fetch_workers handled)
  unfolding dyad_fetch_range_request_cb
  dyad_fetch_range_request_cb_lem n fs s =
      let ((fs', rc), runs, sound, present) =
        dyad_range_cache_ensure_lem o r.ensure fullpath origin offset len fs s (omega arith) fits in
      elim (Option-cases (receive r.os)) [
        | inr (errno, e) ↦ (
          fs,
          (
            replied (error_wo_flock errno idle) 0,
            ground (arith, e),
            s,
            without_flock (read_at offset len o) errno idle refl refl refl refl,
          ),
        )
        | inl e ↦ elim (Bool-cases (r.can_detach && ltb 0 n)) [
          | inl d ↦ (
            fs,
            (
              queue_range r fullpath (some origin) offset len,
              ground (arith, e, d),
              s,
              queue_range-Right n (ground (arith, d)),
            ),
          )
          | inr d ↦ elim (Bool-cases (is_error rc)) [
            | inl f ↦ (
              fs',
              (
                replied (error_wo_flock 5 idle) 0,
                ground (arith, e, d, runs, f),
                sound,
                without_flock (read_at offset len o) 5 idle refl refl refl refl,
              ),
            )
            | inr f ↦
                let (h, serves, settled) = serve_range_lem fs' (present (ok_of_not_error rc f)) in
                (fs', (replied h 0, ground (arith, e, d, runs, f, serves), sound, settled))
          ]
        ]
      ]
