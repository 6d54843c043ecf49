-- ===== src/Client/ConsumeWMetadata/Leaks.antt =====
-- How `dyad_consume_w_metadata` ends: after an error its descriptor of the file stays open.
use dyad.Prelude.{
  ℕ, ◌≤◌, ◌≡◌, ◌≢◌, refl, sym, subst, ◌⊎◌, inl, inr, true, false, ◌==◌, List, [], none, some, arith,
  length, Bool-cases, Option-cases,
}
use dyad.Prelude.Run.{returned}
use dyad.Core.Codes.{Rc, rc_ok, rc_badfio, is_error, ok_of_not_error}
use dyad.Core.Context.{Ctx}
use dyad.Client.Store.Writes.{Steady}
use dyad.Client.Consume.{Hands, Calls, release, is_some, bytes_of, at_close, empty_hands}
use dyad.Client.Consume.Ends.{store_ends}
use dyad.Client.ConsumeWMetadata.{
  w_done, w_regular, w_after_store, w_transfer, w_opened, dyad_consume_w_metadata,
}

module _ (os : Calls) where
  -- What holds when the call is over.
  pub record WEnded (h : Hands) (rc : Rc) : Type 0 where
    pub reenter : h.reenter ≡ true
    pub io_closed : h.io_fd ≡ false
    -- On DYAD_RC_OK nothing is held, and nothing or all of the data was stored.
    pub regular :
        rc ≡ rc_ok
        → (h.lock_fd ≡ false)
          × (h.locked ≡ false)
          × (h.buffer ≡ false)
          × ((h.stored ≡ []) ⊎ (h.stored ≡ bytes_of os.get_data.1))
    -- On an error the file's descriptor is open if it has been opened, but for a failed `close`.
    pub leaks : rc ≢ rc_ok → (h.lock_fd ≡ true) ⊎ (os.open_lock ≡ false) ⊎ (os.close_lock ≡ false)

  w_regular-WEnded :
      (h : Hands)
      → h.io_fd ≡ false
      → (h.stored ≡ []) ⊎ (h.stored ≡ bytes_of os.get_data.1)
      → WEnded (w_regular os h).0 (w_regular os h).1
  w_regular-WEnded h no_io whole = record {
    reenter = refl;
    io_closed = no_io;
    regular = λ ok. (refl, refl, refl, whole);
    leaks = λ bad.
        inr (
          inr
            (elim (Bool-cases os.close_lock) [ inl e ↦ absurd (bad (ground arith)) | inr e ↦ e ]));
  }

  open-WEnded :
      (h : Hands) (rc : Rc)
      → h.lock_fd ≡ true
      → h.io_fd ≡ false
      → is_error rc ≡ true
      → WEnded (at_close h rc).0 (at_close h rc).1
  open-WEnded h rc fd no_io bad = record {
    reenter = refl;
    io_closed = no_io;
    regular = λ ok. absurd (ground arith);
    leaks = λ _. inl fd;
  }

  abbrev w_closed : Hands → List ℕ → Hands
  w_closed h out = record h { stored = out; io_fd = false; locked = false }

  w_after_store-WEnded :
      (h : Hands) (r : List ℕ × Rc)
      → h.lock_fd ≡ true
      → (r.1 ≡ rc_ok → r.0 ≡ bytes_of os.get_data.1)
      → WEnded (w_after_store os h r).0 (w_after_store os h r).1
  w_after_store-WEnded h r fd whole = elim (Bool-cases os.close_io) [
    | inr e ↦
        let eq : w_after_store os h r ≡ w_done (w_closed h r.0) rc_badfio = ground (arith, e) in
        subst (λ x. WEnded x.0 x.1) (sym eq)
          (open-WEnded (record (w_closed h r.0) { buffer = false }) rc_badfio fd refl refl)
    | inl e ↦ elim (Bool-cases (is_error r.1)) [
      | inl e₁ ↦
          let eq : w_after_store os h r ≡ w_done (w_closed h r.0) r.1 = ground (arith, e, e₁) in
          subst (λ x. WEnded x.0 x.1) (sym eq)
            (open-WEnded (record (w_closed h r.0) { buffer = false }) r.1 fd refl e₁)
      | inr e₁ ↦
          let eq : w_after_store os h r ≡ w_regular os (w_closed h r.0) = ground (arith, e, e₁) in
          subst (λ x. WEnded x.0 x.1) (sym eq)
            (w_regular-WEnded (w_closed h r.0) refl (inr (whole (ok_of_not_error r.1 e₁))))
    ]
  ]

  module _ (steady : Steady os.write) (enough : length (bytes_of os.get_data.1) ≤ os.fuel) where
    w_transfer-WEnded :
        (h : Hands)
        → h.lock_fd ≡ true
        → h.io_fd ≡ false
        → (r : Hands × Rc) × (w_transfer os h ≡ some (returned r)) × WEnded r.0 r.1
    unfolding w_transfer
    w_transfer-WEnded h fd no_io =
        let got : Hands = record h { buffer = is_some os.get_data.1 } in
        elim (Bool-cases (is_error os.get_data.0)) [
          | inl e ↦ (
            w_done (release got) os.get_data.0,
            ground (arith, e),
            open-WEnded (record (release got) { buffer = false }) os.get_data.0 fd no_io e,
          )
          | inr e ↦ elim (Bool-cases os.open_io) [
            | inr e₁ ↦ (
              at_close got rc_badfio,
              ground (arith, e, e₁),
              open-WEnded got rc_badfio fd no_io refl,
            )
            | inl e₁ ↦
                let (r, runs, whole) = store_ends os steady enough in
                (
                  w_after_store os (record got { io_fd = true }) r,
                  ground (arith, e, e₁, runs),
                  w_after_store-WEnded (record got { io_fd = true }) r fd whole,
                )
          ]
        ]

    w_opened-WEnded : (r : Hands × Rc) × (w_opened os ≡ some (returned r)) × WEnded r.0 r.1
    unfolding w_opened
    w_opened-WEnded =
        let opened : Hands = record (empty_hands false) { lock_fd = true } in
        let held : Hands = record opened { locked = true } in
        let (r, runs, ended) = w_transfer-WEnded held refl refl in
        elim (Bool-cases os.open_lock) [
          | inr e ↦ (
            at_close (empty_hands false) rc_badfio,
            ground (arith, e),
            record {
              reenter = refl;
              io_closed = refl;
              regular = λ ok. cc;
              leaks = λ _. inr (inl e);
            },
          )
          | inl e ↦ elim (Bool-cases (is_error os.excl_lock)) [
            | inl e₁ ↦ (
              at_close opened os.excl_lock,
              ground (arith, e, e₁),
              open-WEnded opened os.excl_lock refl refl e₁,
            )
            | inr e₁ ↦ elim (Bool-cases (os.file_size == 0)) [
              | inl e₂ ↦ (r, ground (arith, e, e₁, e₂, runs), ended)
              | inr e₂ ↦ (
                w_regular os held,
                ground (arith, e, e₁, e₂),
                w_regular-WEnded held refl (inl refl),
              )
            ]
          ]
        ]

  -- A call with a context, its consumer path and metadata, if every call of `write (2)` writes at
  -- least a byte: it ends with `reenter` put back and the file for writing closed. On DYAD_RC_OK it
  -- holds nothing and has stored nothing or all the fetched bytes. On any error behind the opening of
  -- the file, but for a failed `close` at the end, the file's descriptor is left open.
  pub dyad_consume_w_metadata_lem :
      (ctx : Ctx)
      → Steady os.write
      → length (bytes_of os.get_data.1) ≤ os.fuel
      → ctx.has_handle ≡ true
      → ctx.cons.managed_path ≢ none
      → (r : Hands × Rc) × (dyad_consume_w_metadata os (some ctx) true ≡ some (returned r))
        × WEnded r.0 r.1
  unfolding dyad_consume_w_metadata
  dyad_consume_w_metadata_lem ctx steady enough handle managed =
      let (r, runs, ended) = w_opened-WEnded steady enough in
      elim (Option-cases ctx.cons.managed_path) [
        | inl e ↦ absurd (managed e)
        | inr (p, e) ↦ (r, ground (arith, handle, e, runs), ended)
      ]
