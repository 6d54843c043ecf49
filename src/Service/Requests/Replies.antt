-- ===== src/Service/Requests/Replies.antt =====
-- Every request for a file has one reply, and the data sent are the file's.
use dyad.Prelude.{
  ℕ, ◌≤◌, ◌≡◌, refl, ap, ◌⊎◌, inl, inr, Bool, true, false, ltb, ◌==◌, List, [], ◌∷◌, ◌++◌, some,
  arith, if-lem, length, take_all, Bool-cases, Option-cases,
}
use dyad.Prelude.Run.{returned}
use dyad.Core.Codes.{is_error}
use dyad.RangeCache.{read_at}
use dyad.Client.Store.{granularity}
use dyad.Service.{Reader, read_all, read_failed}
use dyad.Service.Serves.{IsPread, read_chunks_lem}
use dyad.Service.Requests.{
  RequestCalls, closed, failed, Handler, idle, error_wo_flock, error_with_flock, receive,
  read_bytes, transmit, prefix, serve_file, dyad_fetch_request_cb,
}

-- The file is closed and unlocked, and there is one answer: behind one send of these bytes, with the
-- buffer returned, or for a failure, and nothing is sent.
pub record Settled (bytes : List ℕ) (h : Handler) : Type 0 where
  pub fd : h.fd ≡ false
  pub locked : h.locked ≡ false
  pub answer :
      ((h.answers ≡ closed ∷ []) × (h.sends ≡ bytes ∷ []) × (h.buffer ≡ false))
      ⊎ ((errno : ℕ) × (h.answers ≡ failed errno ∷ []) × (h.sends ≡ []))

module _ (bytes : List ℕ) where
  pub without_flock :
      (errno : ℕ) (h : Handler)
      → h.fd ≡ false
      → h.locked ≡ false
      → h.answers ≡ []
      → h.sends ≡ []
      → Settled bytes (error_wo_flock errno h)
  without_flock errno h e e₁ e₂ e₃ = record {
    fd = e;
    locked = e₁;
    answer = inr (errno, ap (λ l. failed errno ∷ l) e₂, e₃);
  }

  pub with_flock :
      (errno : ℕ) (h : Handler)
      → h.answers ≡ []
      → h.sends ≡ []
      → Settled bytes (error_with_flock errno h)
  with_flock errno h e e₁ =
      without_flock errno (record h { fd = false; locked = false }) refl refl e e₁

  pub transmit-Settled :
      (os : RequestCalls) (h : Handler)
      → h.answers ≡ []
      → h.sends ≡ []
      → Settled bytes (transmit os bytes h)
  transmit-Settled os h e e₁ =
      let unlocked : Handler = record h { fd = false; locked = false } in
      if-lem (Settled bytes) (is_error os.connect) (λ _. without_flock 111 unlocked refl refl e e₁)
        (λ _.
          if-lem (Settled bytes) (is_error os.send) (λ _. without_flock 70 unlocked refl refl e e₁)
            (λ _. record {
              fd = refl;
              locked = refl;
              answer = inl (ap (λ l. closed ∷ l) e, ap (λ l. bytes ∷ l) e₁, refl);
            }))

-- The bytes asked for, or a failure.
pub read_bytes_lem :
    (pread : Reader) (fuel : ℕ) (file : List ℕ) (offset len : ℕ)
    → IsPread pread
    → len ≤ fuel
    → (read_bytes pread fuel file offset len ≡ read_all (read_at offset len file))
      ⊎ (read_bytes pread fuel file offset len ≡ read_failed)
unfolding read_bytes
read_bytes_lem pread fuel file offset len is enough = elim (Bool-cases (ltb len granularity)) [
  | inr e ↦ rw e (read_chunks_lem fuel pread 0 file offset len 0 is (omega arith) (omega arith))
  | inl e ↦ elim (Option-cases (pread 0 len)) [
    | inl f ↦ inr (rw (e, f, read_bytes))
    | inr (k, f) ↦ elim (Bool-cases (k == len)) [
      | inr d ↦ inr (rw (e, f, d, read_bytes))
      | inl d ↦
          let same : k ≡ len = ground arith in
          inl (rw (e, f, d, read_bytes) (ap (λ n. read_all (read_at offset n file)) same))
    ]
  ]
]

module _ (os : RequestCalls) (is : IsPread os.pread) where
  serve_file_lem :
      (ucx : Bool) (file : List ℕ)
      → is_error os.get_buffer ≡ false
      → length file ≤ os.fuel
      → (h : Handler) × (serve_file ucx os file ≡ some (returned h))
        × Settled (prefix ucx (length file) ++ file) h
  unfolding serve_file
  serve_file_lem ucx file buffer enough =
      let bytes = prefix ucx (length file) ++ file in
      let opened : Handler = record idle { fd = true } in
      let holding : Handler = record opened { locked = true; buffer = true } in
      elim (Bool-cases os.open_file) [
        | inr e ↦ (_, ground (arith, e), without_flock bytes os.errno idle refl refl refl refl)
        | inl e ↦ elim (Bool-cases (is_error os.shared_lock)) [
          | inl e₁ ↦ (_, ground (arith, e, e₁), with_flock bytes os.errno opened refl refl)
          | inr e₁ ↦ elim (Bool-cases (length file == 0)) [
            | inl z ↦
                (_, ground (arith, e, e₁, buffer, z), with_flock bytes os.errno holding refl refl)
            | inr z ↦ elim (read_bytes_lem os.pread os.fuel file 0 (length file) is enough) [
              | inr f ↦ (
                _,
                ground (arith, e, e₁, buffer, z, f),
                with_flock bytes os.errno holding refl refl,
              )
              | inl f ↦ (
                transmit os bytes holding,
                ground (arith, e, e₁, buffer, z, f, take_all (length file) file (omega arith)),
                transmit-Settled bytes os holding refl refl,
              )
            ]
          ]
        ]
      ]

  -- A request for a file, with a `read` that answers at most what it is asked for and a transport that
  -- has a buffer: whatever else fails, the handler returns with the file closed and unlocked, and the
  -- stream is ended once: by ENODATA behind one send of the whole file (with its size before it in a
  -- build with UCX) and the buffer returned, or by an error with nothing sent.
  pub dyad_fetch_request_cb_lem :
      (ucx : Bool) (files : List ℕ → List ℕ) (fullpath : List ℕ)
      → is_error os.get_buffer ≡ false
      → length (files fullpath) ≤ os.fuel
      → (h : Handler) × (dyad_fetch_request_cb ucx os files fullpath ≡ some (returned h))
        × Settled (prefix ucx (length (files fullpath)) ++ files fullpath) h
  unfolding dyad_fetch_request_cb
  dyad_fetch_request_cb_lem ucx files fullpath buffer enough =
      let (h, runs, settled) = serve_file_lem ucx (files fullpath) buffer enough in
      elim (Option-cases (receive os)) [
        | inl e ↦ (h, ground (arith, e, runs), settled)
        | inr (errno, e) ↦ (_, ground (arith, e), without_flock _ errno idle refl refl refl refl)
      ]
