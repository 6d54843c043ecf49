-- ===== src/RangeCache.antt =====
-- dyad/utils/range_cache.c: which blocks of a local file are present is kept in a bitmap file; a
-- missing span is read from the origin and written to the local file.
-- The outcome of each system call and allocation is an argument. A call that fails changes no file.
-- `fault` is a read or write outside the bitmap buffer.
pub mod Slots
pub mod Bitmap
pub mod Storage
pub mod Sound
pub mod Fetch
pub mod Mark
pub mod Reads
pub mod Search
pub mod Ensure
pub mod Hit
pub mod Succeeds
pub mod Complete
pub mod Bounds
pub mod PastEnd
pub mod Races
mod Tests
use dyad.Prelude.{
  ℕ, zero, suc, ◌+◌, ◌-◌, ◌*◌, ◌/◌, ◌%◌, ◌^◌, Bool, true, false, not, ◌&&◌, ◌||◌, List, [], ◌∷◌,
  ◌++◌, Option, none, some, ltb, leb, ◌==◌, if◌then◌else◌, length, get_elem?, set, take, drop,
  replicate,
}
use dyad.Prelude.Bytes.{test_bit, set_bit}
use dyad.Prelude.Run.{Run, returned, fault, ◌>>=◌}
use dyad.Core.Codes.{Rc, rc_ok, rc_sysfail, rc_badfio, rc_badbuf, is_error}
use dyad.Utils.Strings.{path_max}

-- size_t arithmetic
abbrev pub u64 : ℕ → ℕ
u64 n = n % 2 ^ 64

abbrev pub block_size : ℕ
block_size = 64 * 1024

unfoldable pub num_blocks : ℕ → ℕ
num_blocks file_size = u64 (file_size + block_size - 1) / block_size

unfoldable pub bitmap_bytes : ℕ → ℕ
bitmap_bytes blocks = u64 (blocks + 7) / 8

-- The files of one cached path: `none` is a file that does not exist.
pub record Files : Type 0 where
  pub local_file : Option (List ℕ)
  pub bitmap_file : Option (List ℕ)
  pub origin_file : Option (List ℕ)

abbrev pub content : Option (List ℕ) → List ℕ
content none = []
content (some xs) = xs

-- What each call answers: `true` is success.
pub record Answers : Type 0 where
  pub open_bitmap : Bool
  pub shared_lock : Bool
  pub malloc_probe : Bool
  pub read_probe : Bool
  pub excl_lock : Bool
  pub open_size : Bool
  pub truncate_local : Bool
  pub truncate_bitmap : Bool
  pub calloc_check : Bool
  pub read_check : Bool
  pub malloc_span : Bool
  pub open_origin : Bool
  pub read_origin : Bool
  pub open_local : Bool
  pub write_local : Bool
  pub excl_lock_again : Bool
  pub calloc_record : Bool
  pub read_record : Bool
  pub write_bitmap : Bool

-- `range_cache_blocks_set`: the loop from block `b` with so many rounds left.
unfoldable pub blocks_set : List ℕ → ℕ → ℕ → Run Bool
blocks_set bitmap b zero = returned true
blocks_set bitmap b (suc left) =
    let rest = blocks_set bitmap (b + 1) left in
    elim (get_elem? bitmap (b / 8)) [
      | none ↦ fault
      | some x ↦ if test_bit x (b % 8) then rest else returned false
    ]

-- `range_cache_set_blocks`
unfoldable pub set_blocks : List ℕ → ℕ → ℕ → Run (List ℕ)
set_blocks bitmap b zero = returned bitmap
set_blocks bitmap b (suc left) = elim (get_elem? bitmap (b / 8)) [
  | none ↦ fault
  | some x ↦ set_blocks (set bitmap (b / 8) (set_bit x (b % 8))) (b + 1) left
]

-- The rounds of `for (b = block_start; b <= block_end; b++)`.
abbrev pub rounds : ℕ → ℕ → ℕ
rounds block_start block_end = block_end + 1 - block_start

-- A file cut or extended by zeros to `n` bytes; also a zeroed buffer that a file is read into.
unfoldable pub resized : ℕ → List ℕ → List ℕ
resized n xs = take n xs ++ replicate (n - length xs) 0

-- `pwrite`; a gap behind the end is filled with zeros.
unfoldable pub write_at : ℕ → List ℕ → List ℕ → List ℕ
write_at off bytes xs =
    take off xs ++ replicate (off - length xs) 0 ++ bytes ++ drop (off + length bytes) xs

-- `pread`
abbrev pub read_at : ℕ → ℕ → List ℕ → List ℕ
read_at off n xs = take n (drop off xs)

-- `range_cache_fetch_span`
unfoldable pub fetch_span : Answers → ℕ → ℕ → ℕ → Files → Files × Rc
fetch_span os block_start block_end origin_size fs =
    let span_off = u64 (block_start * block_size) in
    let unclamped = u64 ((block_end + 1) * block_size) in
    let span_end = if ltb origin_size unclamped then origin_size else unclamped in
    let span_len = span_end - span_off in
    let span = read_at span_off span_len (content fs.origin_file) in
    if leb span_end span_off
    then (fs, rc_badfio)
    else if not os.malloc_span
    then (fs, rc_sysfail)
    else if not (os.open_origin && os.read_origin && length span == span_len)
    then (fs, rc_badfio)
    else elim fs.local_file [
      | none ↦ (fs, rc_badfio)
      | some local ↦
          if os.open_local && os.write_local
          then (record fs { local_file = some (write_at span_off span local) }, rc_ok)
          else (fs, rc_badfio)
    ]

-- `open (bitmap_path, O_RDWR | O_CREAT)`
unfoldable pub with_bitmap : Files → Files
with_bitmap fs = record fs { bitmap_file = some (content fs.bitmap_file) }

-- Under the shared lock: is the whole span marked already?
unfoldable pub probe : Answers → ℕ → ℕ → Files → Run Bool
probe os block_start block_end fs =
    let bitmap = content fs.bitmap_file in
    if ltb (block_end / 8) (length bitmap) && os.malloc_probe && os.read_probe
    then blocks_set bitmap block_start (rounds block_start block_end)
    else returned false

pub data Prepared : Type 0 where
  refused : Files → Rc → Prepared
  cached : Files → Prepared
  missing : Files → ℕ → Prepared

-- The part under the exclusive lock that sizes both files on the first touch.
unfoldable pub size_files : Answers → ℕ → Files → Files × Bool
size_files os origin_size fs =
    let bytes = bitmap_bytes (num_blocks origin_size) in
    let opened : Files = record fs { local_file = some (content fs.local_file) } in
    let sized : Files = record fs {
      local_file = some (resized origin_size (content fs.local_file));
    } in
    if leb bytes (length (content fs.bitmap_file))
    then (fs, true)
    else if not os.open_size
    then (fs, false)
    else if not os.truncate_local
    then (opened, false)
    else if not os.truncate_bitmap
    then (sized, false)
    else (record sized { bitmap_file = some (resized bytes (content fs.bitmap_file)) }, true)

-- The second check, under the exclusive lock. An origin that `stat` does not find counts as empty.
unfoldable pub prepare_sized : Answers → ℕ → ℕ → ℕ → Files → Run Prepared
prepare_sized os block_start block_end origin_size fs =
    let bytes = bitmap_bytes (num_blocks origin_size) in
    let (sized, fits) = size_files os origin_size fs in
    let bitmap =
      if os.read_check then resized bytes (content sized.bitmap_file) else replicate bytes 0 in
    if not os.excl_lock
    then returned (refused fs rc_badfio)
    else if origin_size == 0
    then returned (refused fs rc_badfio)
    else if not fits
    then returned (refused sized rc_badfio)
    else if not os.calloc_check
    then returned (refused sized rc_sysfail)
    else do
      hit ← blocks_set bitmap block_start (rounds block_start block_end)
      returned (if hit then cached sized else missing sized origin_size)

unfoldable pub prepare : Answers → ℕ → ℕ → Files → Run Prepared
unfolding prepare_sized
prepare os block_start block_end fs =
    prepare_sized os block_start block_end (length (content fs.origin_file)) fs

-- Under the exclusive lock again: the span is marked, in the bitmap as it is by now.
unfoldable pub mark_span : Answers → ℕ → ℕ → ℕ → Files → Run (Files × Rc)
mark_span os block_start block_end origin_size fs =
    let bytes = bitmap_bytes (num_blocks origin_size) in
    let bitmap =
      if os.read_record then resized bytes (content fs.bitmap_file) else replicate bytes 0 in
    if not os.excl_lock_again
    then returned (fs, rc_badfio)
    else if not os.calloc_record
    then returned (fs, rc_sysfail)
    else do
      marked ← set_blocks bitmap block_start (rounds block_start block_end)
      returned (
          if os.write_bitmap
          then (
            record fs { bitmap_file = some (write_at 0 marked (content fs.bitmap_file)) },
            rc_ok,
          )
          else (fs, rc_badfio))

-- The suffix ".dyad_cached" has 12 bytes; the buffer PATH_MAX + 1.
abbrev pub path_too_long : List ℕ → Bool
path_too_long local_path = leb (path_max + 1) (length local_path + 12)

-- The fetch without a lock, then the mark.
unfoldable pub fetch_and_mark : Answers → ℕ → ℕ → ℕ → Files → Run (Files × Rc)
fetch_and_mark os block_start block_end origin_size fs =
    let (fetched, rc) = fetch_span os block_start block_end origin_size fs in
    if is_error rc
    then returned (fetched, rc)
    else mark_span os block_start block_end origin_size fetched

abbrev pub continue_from : Answers → ℕ → ℕ → Prepared → Run (Files × Rc)
continue_from os block_start block_end (refused fs rc) = returned (fs, rc)
continue_from os block_start block_end (cached fs) = returned (fs, rc_ok)
continue_from os block_start block_end (missing fs origin_size) =
    fetch_and_mark os block_start block_end origin_size fs

-- The two checks and what follows them, with the bitmap file open and the lock available.
unfoldable pub search_and_fill : Answers → ℕ → ℕ → Files → Run (Files × Rc)
search_and_fill os block_start block_end fs = do
  hit ← probe os block_start block_end fs
  (if hit
      then returned (fs, rc_ok)
      else prepare os block_start block_end fs >>= continue_from os block_start block_end)

unfoldable pub dyad_range_cache_ensure :
    Answers → List ℕ → Option (List ℕ) → ℕ → ℕ → Files → Run (Files × Rc)
dyad_range_cache_ensure os local_path none offset len fs = returned (fs, rc_ok)
dyad_range_cache_ensure os local_path (some origin_path) offset len fs =
    let block_start = offset / block_size in
    let block_end = u64 (offset + len + 2 ^ 64 - 1) / block_size in
    let opened = with_bitmap fs in
    if len == 0
    then returned (fs, rc_ok)
    else if path_too_long local_path
    then returned (fs, rc_badbuf)
    else if not os.open_bitmap
    then returned (fs, rc_badfio)
    else if not os.shared_lock
    then returned (opened, rc_badfio)
    else search_and_fill os block_start block_end opened
