-- ===== src/Client/ConsumeRange.antt =====
-- `dyad_consume_range`: a range of a file, from the local copy that the range cache fills, or from
-- the broker that owns the file. `dyad_fetch_metadata` and `dyad_get_data_range` are arguments.
pub mod Right
mod Tests
use dyad.Prelude.{
  ℕ, ◌-◌, Bool, true, false, not, ◌&&◌, List, [], ◌∷◌, Option, none, some, ltb, ◌==◌, if◌then◌else◌,
  length, take,
}
use dyad.Prelude.Run.{Run, returned, fault}
use dyad.Core.Codes.{
  Rc, rc_ok, rc_sysfail, rc_noctx, rc_badmanagedpath, rc_baddtlmode, rc_badfio, is_error,
}
use dyad.Core.Context.{Ctx, DtlMode, dtl_ucx}
use dyad.Utils.Strings.{CStr, strncmp_eq, concat_str, path_max}
use dyad.Utils.Paths.{Hash128, Frame, cmp_canonical_path_prefix, path_delim}
use dyad.RangeCache.{Files, Answers, content, read_at, dyad_range_cache_ensure}

-- What the calls answer. `fetch` has the metadata or NULL; the addresses are those of the buffers
-- `upath`, `fullpath` and `origin_fullpath`.
pub record RangeCalls : Type 0 where
  pub fetch : Rc × Bool
  pub get_data_range : Rc × Option (List ℕ)
  pub ensure : Answers
  pub open_file : Bool
  pub shared_lock : Rc
  pub malloc : Bool
  pub pread : Bool
  pub upath_addr : ℕ
  pub full_addr : ℕ
  pub origin_addr : ℕ

-- `none` at `data` is NULL.
pub record Ranged : Type 0 where
  pub files : Files
  pub rc : Rc
  pub data_ : Option (List ℕ)
  pub reenter : Bool

-- `strncpy` of the directory, then `concat_str`, whose failure is not looked at.
abbrev pub joined : Frame → ℕ → ℕ → List ℕ → List ℕ → List ℕ
joined f addr upath_addr dir upath =
    let base = take (path_max - 1) dir in
    elim (concat_str (record { addr = addr; text = base })
      (record { addr = upath_addr; text = upath }) (path_delim f) path_max) [
        | none ↦ base
        | some path ↦ path
      ]

abbrev pub failed : Files → Rc → Ranged
failed fs rc = record { files = fs; rc = rc; data_ = none; reenter = true }

-- The local copy is read under a shared lock.
unfoldable pub read_local : RangeCalls → ℕ → ℕ → Files → Ranged
read_local os offset len fs =
    let got = read_at offset len (content fs.local_file) in
    if not os.open_file
    then failed fs rc_badfio
    else if is_error os.shared_lock
    then failed fs os.shared_lock
    else if not os.malloc
    then failed fs rc_sysfail
    else if not (os.pread && length got == len)
    then failed fs rc_badfio
    else record { files = fs; rc = rc_ok; data_ = some got; reenter = true }

-- A file that is local to the node: the range cache fills the range first, if there is an origin.
unfoldable pub range_local : RangeCalls → Option (List ℕ) → List ℕ → ℕ → ℕ → Files → Run Ranged
range_local os none fullpath offset len fs = returned (read_local os offset len fs)
range_local os (some origin_fullpath) fullpath offset len fs =
    elim (dyad_range_cache_ensure os.ensure fullpath (some origin_fullpath) offset len fs) [
      | fault ↦ fault
      | returned r ↦
          if is_error r.1
          then returned (failed r.0 r.1)
          else returned (read_local os offset len r.0)
    ]

abbrev pub is_ucx : Option DtlMode → Bool
is_ucx none = true
is_ucx (some dtl_ucx) = true
is_ucx (some _) = false

abbrev pub ranged_remote : Rc × Option (List ℕ) → Files → Ranged
ranged_remote (rc, data_) fs = record {
  files = fs;
  rc = (if is_error rc then rc else rc_ok);
  data_ = data_;
  reenter = true;
}

-- From the metadata on.
unfoldable pub range_tracked : Frame → RangeCalls → Ctx → CStr → List ℕ → ℕ → ℕ → Files → Run Ranged
range_tracked f os ctx managed upath offset len fs =
    let (rc, has_mdata) = os.fetch in
    let origin_fullpath : Option (List ℕ) = elim ctx.origin_path [
      | none ↦ none
      | some dir ↦ some (joined f os.origin_addr os.upath_addr dir upath)
    ] in
    let fullpath = joined f os.full_addr os.upath_addr managed.text upath in
    let local = range_local os origin_fullpath fullpath offset len fs in
    if is_error rc
    then returned (failed fs rc)
    else if has_mdata
    then returned (ranged_remote os.get_data_range fs)
    else local

module _ (murmur : List ℕ → ℕ → Hash128) where
  -- A NULL context is `none`; the code then writes `reenter` through it. A path that is relative to the
  -- managed one is copied, which is a fault where it is longer than the buffer.
  unfoldable pub dyad_consume_range :
      Frame → RangeCalls → Option Ctx → CStr → ℕ → ℕ → Files → Run Ranged
  dyad_consume_range f os none fname offset len fs = fault
  dyad_consume_range f os (some ctx) fname offset len fs =
      if not ctx.has_handle then returned (failed fs rc_noctx) else elim ctx.cons.managed_path [
        | none ↦ returned (failed fs rc_badmanagedpath)
        | some managed ↦
            if is_ucx ctx.dtl_mode
            then returned (failed fs rc_baddtlmode)
            else if ctx.relative_to_managed_path
                && ltb 0 (length fname.text)
                && not (strncmp_eq fname.text (b'/' ∷ []) 1)
            then (if ltb path_max (length fname.text)
                then fault
                else range_tracked f os ctx managed fname.text offset len fs)
            else elim (cmp_canonical_path_prefix murmur f (some ctx) false fname) [
              | fault ↦ fault
              | returned none ↦ returned (failed fs rc_badmanagedpath)
              | returned (some upath) ↦ range_tracked f os ctx managed upath offset len fs
            ]
      ]
