-- ===== src/Client/ConsumeRange/Right.antt =====
-- The bytes that `dyad_consume_range` answers with are the origin's.
use dyad.Prelude.{
  ℕ, first_true, ◌+◌, ◌^◌, ◌≤◌, ◌<◌, ◌≡◌, refl, ap, inl, inr, true, false, not, ◌&&◌, ltb, ◌==◌,
  List, [], ◌∷◌, some, arith, length, Bool-cases, Option-cases,
}
use dyad.Prelude.Run.{returned}
use dyad.Core.Codes.{
  Rc, rc_ok, rc_sysfail, rc_noctx, rc_badmanagedpath, rc_baddtlmode, rc_badfio, is_error,
  ok_of_not_error,
}
use dyad.Core.Context.{Ctx}
use dyad.Utils.Strings.{CStr, strncmp_eq, path_max}
use dyad.Utils.Paths.{Hash128, Frame}
use dyad.Utils.Paths.Filter.{IsHashed, managed_user_path, cmp_canonical_path_prefix_lem}
use dyad.RangeCache.{Files, content, read_at, block_size}
use dyad.RangeCache.Sound.{IsSound, Present}
use dyad.RangeCache.Reads.{read_at-Present}
use dyad.RangeCache.Ensure.{dyad_range_cache_ensure_lem}
use dyad.Client.ConsumeRange.{
  RangeCalls, Ranged, failed, read_local, range_local, is_ucx, range_tracked, joined,
  dyad_consume_range,
}

module _ (o : List ℕ) (offset len : ℕ) (fits : offset + len ≤ length o) where
  -- Sound files, `reenter` put back, and on DYAD_RC_OK the range of the origin.
  abbrev pub Right : Ranged → Type 0
  Right r =
      IsSound o r.files
      × (r.reenter ≡ true)
      × (r.rc ≡ rc_ok → r.data_ ≡ some (read_at offset len o))

  failed-Right : (fs : Files) (rc : Rc) → IsSound o fs → is_error rc ≡ true → Right (failed fs rc)
  failed-Right fs rc s e = (s, refl, λ ok. absurd (ground arith))

  read_local-Right :
      (os : RangeCalls) (fs : Files)
      → IsSound o fs
      → ((i : ℕ) → offset ≤ i → i < offset + len → Present o fs i)
      → Right (read_local os offset len fs)
  unfolding read_local
  read_local-Right os fs s present =
      let got = read_at offset len (content fs.local_file) in
      elim (Bool-cases os.open_file) [
        | inr e ↦ rw (e, read_local) (failed-Right fs rc_badfio s refl)
        | inl e ↦ elim (Bool-cases (is_error os.shared_lock)) [
          | inl e₁ ↦ rw (e, e₁, read_local) (failed-Right fs os.shared_lock s e₁)
          | inr e₁ ↦ elim (Bool-cases os.malloc) [
            | inr e₂ ↦ rw (e, e₁, e₂, read_local) (failed-Right fs rc_sysfail s refl)
            | inl e₂ ↦ elim (Bool-cases (os.pread && length got == len)) [
              | inr e₃ ↦ rw (e, e₁, e₂, e₃, read_local) (failed-Right fs rc_badfio s refl)
              | inl e₃ ↦
                  rw (e, e₁, e₂, e₃, read_local)
                    (s, refl, λ _. ap some (read_at-Present o offset len fs present (ground arith)))
            ]
          ]
        ]
      ]

  -- With an origin, the range cache first makes the bytes present.
  range_local-Right :
      (os : RangeCalls) (origin_fullpath fullpath : List ℕ) (fs : Files)
      → IsSound o fs
      → length o + block_size < 2 ^ 64
      → (r : Ranged) × (range_local os (some origin_fullpath) fullpath offset len fs ≡ returned r)
        × Right r
  unfolding range_local
  range_local-Right os origin_fullpath fullpath fs s small =
      let ((fs', rc), runs, sound, present) =
        dyad_range_cache_ensure_lem o os.ensure fullpath origin_fullpath offset len fs s small
          fits in
      elim (Bool-cases (is_error rc)) [
        | inl e ↦ (failed fs' rc, ground (arith, runs, e), failed-Right fs' rc sound e)
        | inr e ↦ (
          read_local os offset len fs',
          ground (arith, runs, e),
          read_local-Right os fs' sound (present (ok_of_not_error rc e)),
        )
      ]

  range_tracked-Right :
      (f : Frame) (os : RangeCalls) (ctx : Ctx) (managed : CStr) (upath dir : List ℕ) (fs : Files)
      → IsSound o fs
      → length o + block_size < 2 ^ 64
      → ctx.origin_path ≡ some dir
      → os.fetch.1 ≡ false
      → (r : Ranged) × (range_tracked f os ctx managed upath offset len fs ≡ returned r) × Right r
  unfolding range_tracked
  range_tracked-Right f os ctx managed upath dir fs s small has_origin is_local =
      let (r, runs, right) =
        range_local-Right os (joined f os.origin_addr os.upath_addr dir upath)
          (joined f os.full_addr os.upath_addr managed.text upath) fs s small in
      elim (Bool-cases (is_error os.fetch.0)) [
        | inl e ↦ (failed fs os.fetch.0, ground (arith, e), failed-Right fs os.fetch.0 s e)
        | inr e ↦ (r, ground (arith, e, is_local, has_origin, runs), right)
      ]

module _ (murmur : List ℕ → ℕ → Hash128) where
  -- A range of a file that is local to the node and has an origin, for a context whose consumer side
  -- is set and a path of at most PATH_MAX bytes where paths may be relative to the managed one, on
  -- sound files, with a range that ends within the origin (whose size, with one block,
  -- fits 64 bits): whatever the system calls answer, the call returns, the files stay sound,
  -- `reenter` is put back, and on DYAD_RC_OK the data are the bytes of the origin at that range.
  pub dyad_consume_range_lem :
      (o : List ℕ) (f : Frame) (os : RangeCalls) (ctx : Ctx) (fname : CStr) (offset len : ℕ)
      (dir : List ℕ) (fs : Files)
      → IsHashed murmur ctx.cons
      → (ctx.relative_to_managed_path ≡ true → length fname.text ≤ path_max)
      → IsSound o fs
      → length o + block_size < 2 ^ 64
      → (fits : offset + len ≤ length o) → ctx.origin_path ≡ some dir
      → os.fetch.1 ≡ false
      → (r : Ranged) × (dyad_consume_range murmur f os (some ctx) fname offset len fs ≡ returned r)
        × Right o offset len fits r
  unfolding dyad_consume_range
  dyad_consume_range_lem o f os ctx fname offset len dir fs hashed short_name s small fits
        has_origin is_local =
      let set = hashed.managed.is_path in
      let filters = cmp_canonical_path_prefix_lem murmur f ctx false fname hashed in
      let plain =
        ctx.relative_to_managed_path
        && ltb 0 (length fname.text)
        && not (strncmp_eq fname.text (b'/' ∷ []) 1) in
      elim (Bool-cases ctx.has_handle) [
        | inr e ↦ (
          failed fs rc_noctx,
          ground (arith, e),
          failed-Right o offset len fits fs rc_noctx s refl,
        )
        | inl e ↦ elim (Bool-cases (is_ucx ctx.dtl_mode)) [
          | inl e₁ ↦ (
            failed fs rc_baddtlmode,
            ground (arith, e, set, e₁),
            failed-Right o offset len fits fs rc_baddtlmode s refl,
          )
          | inr e₁ ↦ elim (Bool-cases plain) [
            | inl e₂ ↦
                let (r, runs, right) =
                  range_tracked-Right o offset len fits f os ctx hashed.managed.path fname.text dir
                    fs s small has_origin is_local in
                let within : length fname.text ≤ path_max = short_name (
                  first_true ctx.relative_to_managed_path (ltb 0 (length fname.text))
                    (not (strncmp_eq fname.text (b'/' ∷ []) 1)) e₂) in
                let short : ltb path_max (length fname.text) ≡ false = ground (arith, within) in
                (r, ground (arith, e, set, e₁, e₂, short, runs), right)
            | inr e₂ ↦ elim (Option-cases (managed_user_path f ctx.cons fname)) [
              | inl e₃ ↦ (
                failed fs rc_badmanagedpath,
                ground (arith, e, set, e₁, e₂, filters, e₃),
                failed-Right o offset len fits fs rc_badmanagedpath s refl,
              )
              | inr (u, e₃) ↦
                  let (r, runs, right) =
                    range_tracked-Right o offset len fits f os ctx hashed.managed.path u dir fs s
                      small has_origin is_local in
                  (r, ground (arith, e, set, e₁, e₂, filters, e₃, runs), right)
            ]
          ]
        ]
      ]
