-- ===== src/Service.antt =====
-- dyad/service/flux_module/dyad.c: a worker thread serves a range of a file. The lock and the system
-- calls are arguments; `pread` answers the call with that index, for that many bytes, with -1 as
-- `none`.
pub mod Serves
pub mod Start
pub mod Pool
pub mod Requests
mod Tests
use dyad.Prelude.{
  ℕ, zero, suc, ◌+◌, ◌-◌, ◌*◌, ◌%◌, ◌^◌, Bool, true, false, not, ◌&&◌, List, [], ◌∷◌, ◌++◌, Option,
  none, some, leb, ltb, ◌==◌, if◌then◌else◌, length, min,
}
use dyad.Prelude.Run.{Run, returned, fault}
use dyad.Core.Codes.{Rc, rc_ok, rc_badfio, is_error}
use dyad.RangeCache.{Files, Answers, content, read_at, u64, dyad_range_cache_ensure}
use dyad.Client.Store.{granularity}

-- `struct dyad_fetch_work_item`; `none` at `origin_fullpath` is `has_origin` false, and `inbuf` is
-- what has been read into the buffer.
pub record WorkItem : Type 0 where
  pub fullpath : List ℕ
  pub origin_fullpath : Option (List ℕ)
  pub offset : ℕ
  pub range_length : ℕ
  pub inbuf : List ℕ
  pub rc : Rc
  pub range_len : ℕ

-- A ssize_t is kept as its 64 bits: those from 2 ^ 63 on are the negative numbers.
abbrev pub is_negative : ℕ → Bool
is_negative n = leb (2 ^ 63) n

-- The length that is served, for a file of `file_size` bytes.
unfoldable pub clamped : ℕ → ℕ → ℕ → ℕ
clamped offset length_ file_size =
    let end = u64 (offset + length_) in
    if not (is_negative offset) && leb file_size offset
    then 0
    else if not (is_negative end) && ltb file_size end
    then u64 (file_size + 2 ^ 64 - offset)
    else length_

abbrev pub Reader : Type 0
Reader = ℕ → ℕ → Option ℕ

pub data Reads : Type 0 where
  read_all : List ℕ → Reads
  read_failed : Reads
  out_of_fuel : Reads

-- The loop from `read_data` bytes on.
unfoldable pub read_chunks : ℕ → Reader → ℕ → List ℕ → ℕ → ℕ → ℕ → List ℕ → Reads
read_chunks zero pread call file offset range_len read_data inbuf =
    if leb range_len read_data then read_all inbuf else out_of_fuel
read_chunks (suc fuel) pread call file offset range_len read_data inbuf =
    if leb range_len read_data
    then read_all inbuf
    else elim (pread call (min (range_len - read_data) granularity)) [
      | none ↦ read_failed
      | some k ↦
          let onward =
            read_chunks fuel pread (call + 1) file offset range_len (read_data + k)
              (inbuf ++ read_at (offset + read_data) k file) in
          if k == 0 then read_failed else onward
    ]

pub record WorkerCalls : Type 0 where
  pub ensure : Answers
  pub open_file : Bool
  pub shared_lock : Rc
  pub pread : Reader
  pub fuel : ℕ

abbrev pub with_error : WorkItem → WorkItem
with_error item = record item { rc = rc_badfio }

-- From the opening of the file on; `none` wants more fuel.
unfoldable pub read_range : WorkerCalls → WorkItem → Files → Option WorkItem
unfolding clamped read_chunks
read_range os item fs =
    let file = content fs.local_file in
    let range_len = clamped item.offset item.range_length (length file) in
    let rounds = if is_negative range_len then 0 else range_len in
    if not os.open_file
    then some (with_error item)
    else if is_error os.shared_lock
    then some (with_error item)
    else elim (read_chunks os.fuel os.pread 0 file item.offset rounds 0 []) [
      | read_all inbuf ↦ some (record item { inbuf = inbuf; rc = rc_ok; range_len = range_len })
      | read_failed ↦ some (with_error item)
      | out_of_fuel ↦ none
    ]

-- `dyad_fetch_worker_process`, up to `dyad_fetch_worker_finish`.
unfoldable pub dyad_fetch_worker_process :
    WorkerCalls → WorkItem → Files → Run (Files × Option WorkItem)
unfolding read_range
dyad_fetch_worker_process os item fs = elim item.origin_fullpath [
  | none ↦ returned (fs, read_range os item fs)
  | some origin_fullpath ↦
      elim (dyad_range_cache_ensure os.ensure item.fullpath (some origin_fullpath) item.offset
        item.range_length fs) [
          | fault ↦ fault
          | returned r ↦
              if is_error r.1
              then returned (r.0, some (with_error item))
              else returned (r.0, read_range os item r.0)
        ]
]
