-- ===== src/Cache.antt =====
-- dyad/cache/dyad_cache.c: the scan of a managed directory, and the eviction of the files that come
-- first in the order of the active policy until the directory is small enough.
-- A directory is a list of names with `stat`. Times are seconds since the epoch. What `opendir`,
-- `realloc`, the locks, `open` and `unlink` answer, and `qsort`, are arguments.
pub mod Policy
pub mod Scan
pub mod Evict
pub mod Sorting
pub mod Order
mod Tests
use dyad.Prelude.{
  ℕ, ◌+◌, ◌-◌, ◌*◌, ◌%◌, ◌^◌, Bool, true, false, not, ◌&&◌, ◌||◌, List, [], ◌∷◌, ◌++◌, Option, none,
  some, ltb, leb, ◌==◌, if◌then◌else◌, length, take,
}
use dyad.Prelude.Run.{Run, returned, fault}
use dyad.Core.Codes.{Rc, rc_ok, rc_sysfail, rc_badfio, is_error}
use dyad.Core.Context.{Ctx, CachePolicyMode, cache_none, cache_lru, cache_fifo}
use dyad.Utils.Strings.{path_max, strncmp_eq}

-- uint64_t
abbrev pub u64 : ℕ → ℕ
u64 n = n % 2 ^ 64

pub record Stat : Type 0 where
  pub is_reg : Bool
  pub st_size : ℕ
  pub st_atime : ℕ
  pub st_mtime : ℕ

-- `struct dyad_cache_entry`
pub record Entry : Type 0 where
  pub path : List ℕ
  pub size : ℕ
  pub atime : ℕ
  pub recency_key : ℕ

-- One look at a managed directory. `growth` is what `realloc` answers for a capacity.
pub record Dir : Type 0 where
  pub opens : Bool
  pub names : List (List ℕ)
  pub stat : List ℕ → Option Stat
  pub growth : ℕ → Bool

-- "managed_path/name" in a buffer of PATH_MAX + 1 bytes
abbrev pub path_of : List ℕ → List ℕ → List ℕ
path_of managed_path name = take path_max (managed_path ++ b'/' ∷ name)

-- `strcmp (a, b) == 0`
abbrev pub same_name : List ℕ → List ℕ → Bool
same_name a b = strncmp_eq a b (length a + 1)

-- ".dyad_cache.lock"
abbrev pub lock_filename : List ℕ
lock_filename =
    b'.' ∷ b'd' ∷ b'y' ∷ b'a' ∷ b'd' ∷ b'_' ∷ b'c' ∷ b'a' ∷ b'c' ∷ b'h' ∷ b'e' ∷ b'.' ∷ b'l' ∷ b'o'
    ∷ b'c' ∷ b'k' ∷ []

abbrev pub is_skipped : List ℕ → Bool
is_skipped name =
    same_name name (b'.' ∷ []) || same_name name (b'.' ∷ b'.' ∷ []) || same_name name lock_filename

-- The policy's key function; `none` is no usable policy.
abbrev pub KeyOf : Type 0
KeyOf = Option (Stat → ℕ)

-- The entry that a name gives, if it is a candidate.
unfoldable pub candidate : KeyOf → List ℕ → Dir → List ℕ → Option Entry
candidate key managed_path dir name =
    let path = path_of managed_path name in
    if is_skipped name then none else elim (dir.stat path) [
      | none ↦ none
      | some st ↦ if not st.is_reg then none else elim key [
        | none ↦ none
        | some get_key ↦ some (record {
          path = path;
          size = st.st_size;
          atime = st.st_atime;
          recency_key = get_key st;
        })
      ]
    ]

-- The array grows from 16 entries by doubling.
abbrev pub grown : ℕ → ℕ
grown capacity = if capacity == 0 then 16 else u64 (capacity * 2)

pub record Scanned : Type 0 where
  pub entries : List Entry
  pub total_size : ℕ

-- `readdir` over the names. The array has room for `capacity` entries: a write behind it is a fault.
unfoldable pub scan_names :
    KeyOf → List ℕ → Dir → ℕ → List (List ℕ) → Scanned → Run (Option Scanned)
scan_names key managed_path dir capacity [] s = returned (some s)
scan_names key managed_path dir capacity (name ∷ names) s =
    let room = if length s.entries == capacity then grown capacity else capacity in
    elim (candidate key managed_path dir name) [
      | none ↦ scan_names key managed_path dir capacity names s
      | some e ↦
          if length s.entries == capacity && not (dir.growth (grown capacity))
          then returned none
          else if leb room (length s.entries)
          then fault
          else scan_names key managed_path dir room names
              (record { entries = s.entries ++ e ∷ []; total_size = u64 (s.total_size + e.size) })
    ]

abbrev pub nothing : Scanned
nothing = record { entries = []; total_size = 0 }

unfoldable pub dyad_cache_scan_dir : KeyOf → List ℕ → Dir → Run (Scanned × Rc)
unfolding scan_names
dyad_cache_scan_dir key managed_path dir =
    if not dir.opens
    then returned (nothing, rc_badfio)
    else elim (scan_names key managed_path dir 0 dir.names nothing) [
      | fault ↦ fault
      | returned none ↦ returned (nothing, rc_sysfail)
      | returned (some s) ↦ returned (s, rc_ok)
    ]

-- -1, 1 and 0
pub data Order3 : Type 0 where
  less greater same : Order3

unfoldable pub dyad_cache_entry_cmp : Entry → Entry → Order3
dyad_cache_entry_cmp ea eb =
    if ltb ea.recency_key eb.recency_key
    then less
    else if ltb eb.recency_key ea.recency_key
    then greater
    else same

-- What the calls on one victim answer, by its path.
pub record Victims : Type 0 where
  pub opens : List ℕ → Bool
  pub try_lock : List ℕ → Rc
  pub unlinks : List ℕ → Bool

abbrev pub is_ok : Rc → Bool
is_ok rc_ok = true
is_ok _ = false

-- `(now - atime) < grace`, in signed numbers
abbrev pub in_grace : ℕ → ℕ → Entry → Bool
in_grace now grace e = ltb now (e.atime + grace)

-- What the loop has done: the unlinked entries in order, the size left, the bytes freed.
pub record Evicted : Type 0 where
  pub unlinked : List Entry
  pub total_size : ℕ
  pub bytes_freed : ℕ

-- The loop over the sorted entries.
unfoldable pub evict_loop : Victims → ℕ → ℕ → ℕ → List Entry → Evicted → Evicted
evict_loop vs now grace low_watermark [] s = s
evict_loop vs now grace low_watermark (e ∷ es) s =
    let skipped = evict_loop vs now grace low_watermark es s in
    let removed = evict_loop vs now grace low_watermark es (record {
      unlinked = s.unlinked ++ e ∷ [];
      total_size = u64 (s.total_size + 2 ^ 64 - u64 e.size);
      bytes_freed = u64 (s.bytes_freed + e.size);
    }) in
    if leb s.total_size low_watermark
    then s
    else if in_grace now grace e
    then skipped
    else if not (vs.opens e.path)
    then skipped
    else if not (is_ok (vs.try_lock e.path))
    then skipped
    else if vs.unlinks e.path
    then removed
    else skipped

-- What lies outside `dyad_cache_maybe_evict`: the two looks at the directory, the lock file, `qsort`,
-- the clock and the victims.
pub record World : Type 0 where
  pub first_look : Dir
  pub open_lock : Bool
  pub excl_lock : Bool
  pub second_look : Dir
  pub qsort : (Entry → Entry → Order3) → List Entry → List Entry
  pub now : ℕ
  pub victims : Victims

abbrev pub untouched : ℕ → Evicted
untouched total = record { unlinked = []; total_size = total; bytes_freed = 0 }

-- From the second look on, under the lock.
unfoldable pub evict_locked : KeyOf → Ctx → List ℕ → World → Run (Evicted × Rc)
evict_locked key ctx managed_path w = elim (dyad_cache_scan_dir key managed_path w.second_look) [
  | fault ↦ fault
  | returned (s, rc) ↦
      if is_error rc || leb s.total_size ctx.cache_capacity_bytes
      then returned (untouched s.total_size, rc_ok)
      else returned (
        evict_loop w.victims w.now ctx.cache_grace_period_sec ctx.low_watermark
            (w.qsort dyad_cache_entry_cmp s.entries) (untouched s.total_size),
        rc_ok,
      )
]

abbrev pub is_none : CachePolicyMode → Bool
is_none cache_none = true
is_none _ = false

-- `none` is a context or a managed path that is NULL.
unfoldable pub dyad_cache_maybe_evict :
    KeyOf → Option Ctx → Option (List ℕ) → World → Run (Evicted × Rc)
dyad_cache_maybe_evict key none path w = returned (untouched 0, rc_ok)
dyad_cache_maybe_evict key (some ctx) none w = returned (untouched 0, rc_ok)
dyad_cache_maybe_evict key (some ctx) (some managed_path) w =
    let locked = evict_locked key ctx managed_path w in
    if ctx.cache_capacity_bytes == 0 || is_none ctx.cache_policy_mode
    then returned (untouched 0, rc_ok)
    else elim (dyad_cache_scan_dir key managed_path w.first_look) [
      | fault ↦ fault
      | returned (s, rc) ↦
          if is_error rc
            || leb s.total_size ctx.cache_capacity_bytes
            || not w.open_lock
            || not w.excl_lock
          then returned (untouched s.total_size, rc_ok)
          else locked
    ]
