-- ===== src/Utils/Paths.antt =====
-- Which paths DYAD manages: `hash_str`, `hash_path_prefix` and `cmp_canonical_path_prefix` of
-- dyad/utils/utils.c. The hash function (dyad/utils/murmur3.c, a copy of MurmurHash3) and
-- `realpath` are parameters.
pub mod Filter
pub mod Samples
mod Tests
use Prim.Native.Nat.{bit_xor}
use dyad.Prelude.{
  ℕ, ◌+◌, ◌-◌, ◌%◌, ◌^◌, Bool, true, false, List, [], ◌∷◌, ◌++◌, Option, none, some, ltb, leb, ◌==◌,
  if◌then◌else◌, length, take, replicate,
}
use dyad.Prelude.Run.{Run, returned, fault, ◌>>=◌}
use dyad.Core.Context.{Side, Ctx}
use dyad.Utils.Strings.{CStr, extract_user_path, path_max}

pub record Hash128 : Type 0 where
  pub w0 : ℕ
  pub w1 : ℕ
  pub w2 : ℕ
  pub w3 : ℕ

abbrev pub dyad_seed : ℕ
dyad_seed = 104723

-- Texts of less than 128 bytes are filled up with '@'.
abbrev pub padded : List ℕ → List ℕ
padded key = if ltb (length key) 128 then key ++ replicate (128 - length key) b'@' else key

-- `(hash[0] ^ hash[1] ^ hash[2] ^ hash[3]) + 1` in uint32_t
abbrev pub fold_hash : Hash128 → ℕ
fold_hash h = (bit_xor (bit_xor (bit_xor h.w0 h.w1) h.w2) h.w3 + 1) % 2 ^ 32

-- What lies outside the function: the file system's `realpath`, and the addresses of the local
-- buffer `can_path`, of DYAD_PATH_DELIM and of the output buffer.
pub record Frame : Type 0 where
  pub realpath : List ℕ → Option (List ℕ)
  pub can_addr : ℕ
  pub delim_addr : ℕ
  pub upath : Option ℕ
  pub upath_capacity : ℕ

abbrev pub path_delim : Frame → CStr
path_delim f = record { addr = f.delim_addr; text = b'/' ∷ [] }

module _ (murmur : List ℕ → ℕ → Hash128) where
  -- `none` is NULL.
  unfoldable pub hash_str : Option (List ℕ) → ℕ → ℕ
  hash_str none seed = 0
  hash_str (some str) seed = if length str == 0 then 0 else fold_hash (murmur (padded str) seed)

  unfoldable pub hash_path_prefix : Option (List ℕ) → ℕ → ℕ → ℕ
  hash_path_prefix none seed len = 0
  hash_path_prefix (some str) seed len =
      if len == 0
      then 0
      else if ltb (length str) len
      then 0
      else fold_hash (murmur (padded (take len str)) seed)

  -- One test: the hash of the leading bytes, then the comparison itself. `strlen (NULL)` is a fault.
  unfoldable pub try_prefix : Frame → Option CStr → ℕ → ℕ → CStr → Run (Option (List ℕ))
  try_prefix f prefix len hash path =
      if hash_path_prefix (some path.text) dyad_seed len == hash
      then elim prefix [
        | none ↦ fault
        | some p ↦
            returned (extract_user_path p path (some (path_delim f)) f.upath f.upath_capacity)
      ]
      else returned none

  abbrev pub or_try : Option (List ℕ) → Run (Option (List ℕ)) → Run (Option (List ℕ))
  or_try none next = next
  or_try (some u) next = returned (some u)

  -- The managed path, then the real path of the managed path if there is one.
  unfoldable pub try_side : Frame → Side → CStr → Run (Option (List ℕ))
  unfolding try_prefix
  try_side f side path = do
    found ← try_prefix f side.managed_path side.managed_len side.managed_hash path
    or_try found (
        if ltb 0 side.real_len
        then try_prefix f side.real_path side.real_len side.real_hash path
        else returned none)

  -- `some u` is `true` with `u` stored at `upath`.
  unfoldable pub cmp_canonical_path_prefix :
      Frame → Option Ctx → Bool → CStr → Run (Option (List ℕ))
  unfolding try_side
  cmp_canonical_path_prefix f none is_prod path = returned none
  cmp_canonical_path_prefix f (some ctx) is_prod path = do
    let side = if is_prod then ctx.prod else ctx.cons
    found ← try_side f side path
    or_try found (elim (f.realpath path.text) [
      | none ↦ returned none
      | some can_path ↦ try_side f side (record { addr = f.can_addr; text = can_path })
    ])
