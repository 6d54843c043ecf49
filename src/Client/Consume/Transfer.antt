-- ===== src/Client/Consume/Transfer.antt =====
-- `dyad_consume` when nothing fails: the data is transferred, whole, under the lock.
use dyad.Prelude.{
  ℕ, ◌<◌, ◌≤◌, ◌≡◌, ap, ap₂, ◌∙◌, true, false, not, ◌&&◌, ltb, List, some, arith, length, take,
  take_all, Bool-cases, inl, inr,
}
use dyad.Prelude.Run.{returned}
use dyad.Core.Codes.{rc_ok}
use dyad.Core.Context.{Ctx}
use dyad.Utils.Strings.{CStr, path_max}
use dyad.Utils.Paths.{Hash128, Frame}
use dyad.Utils.Paths.Filter.{IsHashed, managed_user_path, cmp_canonical_path_prefix_lem}
use dyad.Client.Store.{dyad_cons_store, granularity}
use dyad.Client.Store.Writes.{Steady, dyad_cons_store_lem}
use dyad.Client.Consume.{
  Hands, Calls, fetched, transfer, obtain, empty_hands, consume_tracked, dyad_consume,
  begins_with_delim, bytes_of,
}

-- Every call succeeds, and the file is not local yet. Less than a chunk is written by one call.
pub record Succeeds (os : Calls) (data_ : List ℕ) : Type 0 where
  pub open_lock : os.open_lock ≡ true
  pub excl_lock : os.excl_lock ≡ rc_ok
  pub file_size : os.file_size ≡ 0
  pub fetch : os.fetch ≡ (rc_ok, true)
  pub get_data : os.get_data ≡ (rc_ok, some data_)
  pub open_io : os.open_io ≡ true
  pub makes_dir : os.makes_dir ≡ true
  pub steady : Steady os.write
  pub small : length data_ < granularity → os.write 0 (length data_) ≡ some (length data_)
  pub enough : length data_ ≤ os.fuel
  pub close_io : os.close_io ≡ true
  pub close_lock : os.close_lock ≡ true

-- What the call has done then.
abbrev pub transferred : List ℕ → Hands
transferred data_ = record {
  lock_fd = false;
  locked = false;
  io_fd = false;
  buffer = false;
  mdata = false;
  stored = data_;
  evicts = true;
  reenter = true;
}

module _ (os : Calls) (data_ : List ℕ) (s : Succeeds os data_) where
  store_whole : dyad_cons_store os.fuel true os.write data_ ≡ some (returned (data_, rc_ok))
  unfolding dyad_cons_store
  store_whole = elim (Bool-cases (ltb (length data_) granularity)) [
    | inl e ↦
        let one : os.write 0 (length data_) ≡ some (length data_) = s.small (ground arith) in
        let all : take (length data_) data_ ≡ data_ = take_all (length data_) data_ (omega arith) in
        ground (arith, e, one, all)
    | inr e ↦
        let (r, runs, whole, ok) = dyad_cons_store_lem os.fuel os.write data_ s.steady s.enough in
        let done : r.1 ≡ rc_ok = ok (ground arith) in
        runs ∙ ap (λ x. some (returned x)) (ap₂ (λ a b. (a, b)) (whole done) done)
  ]

  transfer-stored :
      (h : Hands)
      → transfer os h
        ≡ some (
            returned (
              fetched
                (record h { buffer = true; stored = data_; mdata = false; io_fd = false })
                rc_ok))
  unfolding transfer
  transfer-stored h =
      let store : dyad_cons_store os.fuel os.makes_dir os.write (bytes_of os.get_data.1)
          ≡ some (returned (data_, rc_ok)) =
        ap₂ (λ b d. dyad_cons_store os.fuel b os.write (bytes_of d)) s.makes_dir
          (ap (λ g. g.1) s.get_data)
        ∙ store_whole in
      ground (
        arith,
        store,
        s.open_io,
        s.close_io,
        ap (λ g. g.0) s.fetch,
        ap (λ g. g.1) s.fetch,
        ap (λ g. g.0) s.get_data,
        ap (λ g. g.1) s.get_data,
      )

  obtain-stored :
      (ctx : Ctx) (h : Hands)
      → ctx.shared_storage ≡ false
      → obtain os ctx h
        ≡ some (
            returned (
              fetched
                (record h { buffer = true; stored = data_; mdata = false; io_fd = false })
                rc_ok))
  unfolding obtain
  obtain-stored ctx h apart = ground (arith, apart, s.file_size, transfer-stored h)

  consume_tracked-stored :
      (ctx : Ctx)
      → ctx.shared_storage ≡ false
      → consume_tracked os ctx ≡ some (returned (transferred data_, rc_ok))
  unfolding consume_tracked
  consume_tracked-stored ctx apart = ground (
    arith,
    s.open_lock,
    s.excl_lock,
    s.close_lock,
    obtain-stored ctx (record (empty_hands false) { lock_fd = true; locked = true }) apart,
  )

module _ (murmur : List ℕ → ℕ → Hash128) where
  -- A file of the consumer's managed directory that is not local yet, on storage that is not shared, with
  -- a path of at most PATH_MAX bytes:
  -- when every call succeeds, `dyad_consume` answers DYAD_RC_OK with all the fetched bytes stored,
  -- the descriptors closed, the lock and the buffer given up, `reenter` put back, and the eviction
  -- called.
  dyad_consume-transferred :
      (f : Frame) (os : Calls) (ctx : Ctx) (fname : CStr) (data_ upath : List ℕ)
      → IsHashed murmur ctx.cons
      → ctx.has_handle ≡ true
      → ctx.shared_storage ≡ false
      → managed_user_path f ctx.cons fname ≡ some upath
      → length fname.text ≤ path_max
      → Succeeds os data_
      → dyad_consume murmur f os (some ctx) fname ≡ some (returned (transferred data_, rc_ok))
  unfolding dyad_consume
  dyad_consume-transferred f os ctx fname data_ upath hashed handle apart managed within s =
      let set = hashed.managed.is_path in
      let filters = cmp_canonical_path_prefix_lem murmur f ctx false fname hashed in
      let runs = consume_tracked-stored os data_ s ctx apart in
      elim (Bool-cases (
        ctx.relative_to_managed_path
        && ltb 0 (length fname.text)
        && not (begins_with_delim fname.text))) [
          | inl e ↦
              let short : ltb path_max (length fname.text) ≡ false = ground (arith, within) in
              ground (arith, handle, set, e, short, runs)
          | inr e ↦ ground (arith, handle, set, e, filters, managed, runs)
        ]
