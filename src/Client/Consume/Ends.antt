-- ===== src/Client/Consume/Ends.antt =====
-- How `dyad_consume` ends: what it still holds, and what it has stored.
use dyad.Prelude.{
  ℕ, first_true, ◌≤◌, ◌≡◌, refl, sym, ap, subst, ◌∙◌, ◌⊎◌, inl, inr, Bool, true, false, not, ◌&&◌,
  ◌||◌, ltb, ◌==◌, List, [], some, arith, length, Bool-cases, Option-cases,
}
use dyad.Prelude.Run.{returned}
use dyad.Core.Codes.{Rc, rc_ok, rc_badfio, rc_noctx, is_error}
use dyad.Core.Context.{Ctx}
use dyad.Utils.Strings.{CStr, path_max}
use dyad.Utils.Paths.{Hash128, Frame}
use dyad.Utils.Paths.Filter.{IsHashed, managed_user_path, cmp_canonical_path_prefix_lem}
use dyad.Client.Store.{dyad_cons_store}
use dyad.Client.Store.Writes.{Steady, dyad_cons_store_lem}
use dyad.Client.Consume.{
  Hands, Calls, Next, consume_done, consume_close, fetched, after_store, bytes_of, transfer, obtain,
  finish, at_close, at_done, empty_hands, consume_tracked, dyad_consume, release, begins_with_delim,
  is_some,
}

module _ (os : Calls) where
  -- On DYAD_RC_OK, nothing was stored, or all the bytes that were fetched.
  abbrev Whole : Hands → Rc → Type 0
  Whole h rc = rc ≡ rc_ok → (h.stored ≡ []) ⊎ (h.stored ≡ bytes_of os.get_data.1)

  abbrev Fine : Next → Type 0
  Fine (consume_done h rc) = (h.io_fd ≡ false) × Whole h rc
  Fine (consume_close h rc) =
      (h.io_fd ≡ false)
      × (os.open_io ≡ false)
      × (h.lock_fd ≡ true)
      × (h.locked ≡ true)
      × (rc ≡ rc_badfio)
  Fine (fetched h rc) = (h.io_fd ≡ false) × Whole h rc

  -- The store ends, and on DYAD_RC_OK the file has the data.
  pub store_ends :
      Steady os.write
      → length (bytes_of os.get_data.1) ≤ os.fuel
      → (r : List ℕ × Rc) × (dyad_cons_store os.fuel os.makes_dir os.write (bytes_of os.get_data.1)
          ≡ some (returned r))
        × (r.1 ≡ rc_ok → r.0 ≡ bytes_of os.get_data.1)
  unfolding dyad_cons_store
  store_ends steady enough = elim (Bool-cases os.makes_dir) [
    | inr e ↦ (([], rc_badfio), ground arith, λ h. cc)
    | inl e ↦
        let (r, runs, whole, _) =
          dyad_cons_store_lem os.fuel os.write (bytes_of os.get_data.1) steady enough in
        (r, ap (λ b. dyad_cons_store os.fuel b os.write (bytes_of os.get_data.1)) e ∙ runs, whole)
  ]

  abbrev closed : Hands → List ℕ → Hands
  closed h out = record h { stored = out; mdata = false; io_fd = false }

  after_store-Fine :
      (h : Hands) (r : List ℕ × Rc)
      → (r.1 ≡ rc_ok → r.0 ≡ bytes_of os.get_data.1)
      → Fine (after_store os h r)
  after_store-Fine h r whole = elim (Bool-cases os.close_io) [
    | inr e ↦
        let eq : after_store os h r ≡ consume_done (release (closed h r.0)) rc_badfio =
          ground (arith, e) in
        subst Fine (sym eq) (refl, λ x. cc)
    | inl e ↦ elim (Bool-cases (is_error r.1)) [
      | inl e₁ ↦
          let eq : after_store os h r ≡ consume_done (release (closed h r.0)) r.1 =
            ground (arith, e, e₁) in
          subst Fine (sym eq) (refl, λ x. inr (whole x))
      | inr e₁ ↦
          let eq : after_store os h r ≡ fetched (closed h r.0) r.1 = ground (arith, e, e₁) in
          subst Fine (sym eq) (refl, λ x. inr (whole x))
    ]
  ]

  -- Nothing stored yet.
  record Holding (h : Hands) : Type 0 where
    lock_fd : h.lock_fd ≡ true
    locked : h.locked ≡ true
    io_fd : h.io_fd ≡ false
    stored : h.stored ≡ []

  transfer-Fine :
      (h : Hands)
      → Holding h
      → Steady os.write
      → length (bytes_of os.get_data.1) ≤ os.fuel
      → (n : Next) × (transfer os h ≡ some (returned n)) × Fine n
  unfolding transfer
  transfer-Fine h s steady enough =
      let known : Hands = record h { mdata = os.fetch.1 } in
      let got : Hands = record known { buffer = is_some os.get_data.1 } in
      let opened : Hands = record got { io_fd = true } in
      elim (Bool-cases (is_error os.fetch.0)) [
        | inl e ↦ (
          consume_done (release known) os.fetch.0,
          ground (arith, e),
          (s.io_fd, λ _. inl s.stored),
        )
        | inr e ↦ elim (Bool-cases os.fetch.1) [
          | inr e₁ ↦ (
            consume_done (release known) rc_ok,
            ground (arith, e, e₁),
            (s.io_fd, λ _. inl s.stored),
          )
          | inl e₁ ↦ elim (Bool-cases (is_error os.get_data.0)) [
            | inl e₂ ↦ (
              consume_done (release got) os.get_data.0,
              ground (arith, e, e₁, e₂),
              (s.io_fd, λ _. inl s.stored),
            )
            | inr e₂ ↦ elim (Bool-cases os.open_io) [
              | inr e₃ ↦ (
                consume_close got rc_badfio,
                ground (arith, e, e₁, e₂, e₃),
                (s.io_fd, e₃, s.lock_fd, s.locked, refl),
              )
              | inl e₃ ↦
                  let (r, runs, whole) = store_ends steady enough in
                  (
                    after_store os opened r,
                    ground (arith, e, e₁, e₂, e₃, runs),
                    after_store-Fine opened r whole,
                  )
            ]
          ]
        ]
      ]

  obtain-Fine :
      (ctx : Ctx) (h : Hands)
      → Holding h
      → Steady os.write
      → length (bytes_of os.get_data.1) ≤ os.fuel
      → (n : Next) × (obtain os ctx h ≡ some (returned n)) × Fine n
  unfolding obtain
  obtain-Fine ctx h s steady enough =
      let wants = not ctx.use_fs_locks || os.file_size == 0 in
      elim (Bool-cases ctx.shared_storage) [
        | inl e ↦ elim (Bool-cases wants) [
          | inl e₁ ↦ (
            consume_done (record (release h) { mdata = os.fetch.1 }) os.fetch.0,
            ground (arith, e, e₁),
            (s.io_fd, λ _. inl s.stored),
          )
          | inr e₁ ↦
              (consume_done (release h) rc_ok, ground (arith, e, e₁), (s.io_fd, λ _. inl s.stored))
        ]
        | inr e ↦ elim (Bool-cases wants) [
          | inl e₁ ↦
              let (n, runs, fine) = transfer-Fine h s steady enough in
              (n, ground (arith, e, e₁, runs), fine)
          | inr e₁ ↦ (fetched h rc_ok, ground (arith, e, e₁), (s.io_fd, λ _. inl s.stored))
        ]
      ]

  -- What holds when the call is over.
  pub record Ended (h : Hands) (rc : Rc) : Type 0 where
    pub reenter : h.reenter ≡ true
    pub io_closed : h.io_fd ≡ false
    pub lets_go :
        ((h.lock_fd ≡ false) × (h.locked ≡ false) × (h.buffer ≡ false))
        ⊎ ((os.open_io ≡ false) × (h.lock_fd ≡ true) × (h.locked ≡ true) × (rc ≡ rc_badfio))
    pub whole : Whole h rc

  nothing-Ended : (b : Bool) (rc : Rc) → Ended (record (empty_hands b) { reenter = true }) rc
  nothing-Ended b rc = record {
    reenter = refl;
    io_closed = refl;
    lets_go = inl (refl, refl, refl);
    whole = λ _. inl refl;
  }

  done-Ended :
      (h : Hands) (rc : Rc)
      → h.io_fd ≡ false
      → Whole h rc
      → Ended (at_done os h rc).0 (at_done os h rc).1
  done-Ended h rc no_io whole = record {
    reenter = refl;
    io_closed = no_io;
    lets_go = inl (refl, refl, refl);
    whole = λ ok. elim (Bool-cases os.close_lock) [
      | inl e ↦ whole (ground arith)
      | inr e ↦ absurd (ground arith)
    ];
  }

  finish-Ended : (n : Next) → Fine n → Ended (finish os n).0 (finish os n).1
  finish-Ended (consume_done h rc) f = done-Ended h rc f.0 f.1
  finish-Ended (fetched h rc) f = done-Ended (record (release h) { evicts = true }) rc f.0 f.1
  finish-Ended (consume_close h rc) f = record {
    reenter = refl;
    io_closed = f.0;
    lets_go = inr (f.1, f.2, f.3, f.4);
    whole = λ ok. cc;
  }

  consume_tracked-Ended :
      (ctx : Ctx)
      → Steady os.write
      → length (bytes_of os.get_data.1) ≤ os.fuel
      → (r : Hands × Rc) × (consume_tracked os ctx ≡ some (returned r)) × Ended r.0 r.1
  unfolding consume_tracked
  consume_tracked-Ended ctx steady enough =
      let opened : Hands = record (empty_hands false) { lock_fd = true } in
      let holds : Holding (record opened { locked = true }) = record {
        lock_fd = refl;
        locked = refl;
        io_fd = refl;
        stored = refl;
      } in
      let (n, runs, fine) = obtain-Fine ctx (record opened { locked = true }) holds steady enough in
      elim (Bool-cases os.open_lock) [
        | inr e ↦ (
          at_close (empty_hands false) rc_badfio,
          ground (arith, e),
          nothing-Ended false rc_badfio,
        )
        | inl e ↦ elim (Bool-cases (is_error os.excl_lock)) [
          | inl e₁ ↦ (
            at_done os opened os.excl_lock,
            ground (arith, e, e₁),
            done-Ended opened os.excl_lock refl (λ _. inl refl),
          )
          | inr e₁ ↦ (finish os n, ground (arith, e, e₁, runs), finish-Ended n fine)
        ]
      ]

module _ (murmur : List ℕ → ℕ → Hash128) where
  -- For a context whose consumer side is set, and a path of at most PATH_MAX bytes where paths may be
  -- relative to the managed one, if every call of `write (2)` writes at least a byte: the
  -- call of `dyad_consume` ends, with `reenter` put back and the file for writing closed. It has given
  -- up the descriptor, the lock and the buffer, unless the file could not be opened for writing: then
  -- it answers DYAD_RC_BADFIO with the descriptor open and the lock held. On DYAD_RC_OK it has stored
  -- nothing or all the bytes that were fetched.
  pub dyad_consume_lem :
      (f : Frame) (os : Calls) (ctx : Ctx) (fname : CStr)
      → IsHashed murmur ctx.cons
      → (ctx.relative_to_managed_path ≡ true → length fname.text ≤ path_max)
      → Steady os.write
      → length (bytes_of os.get_data.1) ≤ os.fuel
      → (r : Hands × Rc) × (dyad_consume murmur f os (some ctx) fname ≡ some (returned r))
        × Ended os r.0 r.1
  unfolding dyad_consume
  dyad_consume_lem f os ctx fname hashed fits steady enough =
      let set = hashed.managed.is_path in
      let filters = cmp_canonical_path_prefix_lem murmur f ctx false fname hashed in
      let (r, runs, ended) = consume_tracked-Ended os ctx steady enough in
      elim (Bool-cases ctx.has_handle) [
        | inr e ↦ (
          at_close (empty_hands ctx.reenter) rc_noctx,
          ground (arith, e),
          nothing-Ended os ctx.reenter rc_noctx,
        )
        | inl e ↦
            elim (Bool-cases (
              ctx.relative_to_managed_path
              && ltb 0 (length fname.text)
              && not (begins_with_delim fname.text))) [
                | inl e₁ ↦
                    let within : length fname.text ≤ path_max = fits (
                      first_true ctx.relative_to_managed_path (ltb 0 (length fname.text))
                        (not (begins_with_delim fname.text)) e₁) in
                    let short : ltb path_max (length fname.text) ≡ false = ground (arith, within) in
                    (r, ground (arith, e, set, e₁, short, runs), ended)
                | inr e₁ ↦ elim (Option-cases (managed_user_path f ctx.cons fname)) [
                  | inl e₂ ↦ (
                    at_close (empty_hands ctx.reenter) rc_ok,
                    ground (arith, e, set, e₁, filters, e₂),
                    nothing-Ended os ctx.reenter rc_ok,
                  )
                  | inr (u, e₂) ↦ (r, ground (arith, e, set, e₁, filters, e₂, runs), ended)
                ]
              ]
      ]
