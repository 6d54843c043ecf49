-- ===== src/Client/PathKey.antt =====
-- The keys of the KVS: `gen_path_key` of dyad/client/dyad_client.c.
pub mod Recover
mod Tests
use Prim.Native.Nat.{bit_xor}
use dyad.Prelude.{
  ℕ, zero, suc, ◌+◌, ◌-◌, ◌*◌, ◌/◌, ◌%◌, ◌^◌, ◌||◌, not, Bool, true, false, List, [], ◌∷◌, ◌++◌,
  Option, none, some, ltb, leb, ◌==◌, if◌then◌else◌, length, take, get_elem?,
}
use dyad.Prelude.Run.{Run, returned, fault}
use dyad.Utils.Paths.{Hash128, padded}

abbrev pub seeds : List ℕ
seeds = 104677 ∷ 104681 ∷ 104683 ∷ 104693 ∷ 104701 ∷ 104707 ∷ 104711 ∷ 104717 ∷ 104723 ∷ 104729 ∷ []

abbrev pub seed_at : Option ℕ → ℕ
seed_at none = 0
seed_at (some s) = s

-- The digits of "%x".
abbrev pub hex_digit : ℕ → ℕ
hex_digit n = if ltb n 10 then b'0' + n else b'a' + (n - 10)

-- "%x" of a number of at most `fuel + 1` digits, with `rest` behind it.
unfoldable pub hex_onto : ℕ → ℕ → List ℕ → List ℕ
hex_onto zero n rest = hex_digit (n % 16) ∷ rest
hex_onto (suc fuel) n rest =
    let longer = hex_onto fuel (n / 16) (hex_digit (n % 16) ∷ rest) in
    if n / 16 == 0 then hex_digit (n % 16) ∷ rest else longer

-- `(hash[0] ^ hash[1] ^ hash[2] ^ hash[3]) % width`
abbrev pub bin_of : Hash128 → ℕ → ℕ
bin_of h width = bit_xor (bit_xor (bit_xor h.w0 h.w1) h.w2) h.w3 % width

-- What `snprintf (path_key + cx, len - cx, ...)` of the text `s` leaves, where `key` are the first
-- `cx` bytes.
abbrev pub print_at : ℕ → List ℕ → List ℕ → List ℕ
print_at len key s = key ++ take (len - length key - 1) s

-- The value returned is 0 or not, and the text that the buffer holds, which the callers clear before.
pub record PathKey : Type 0 where
  pub ok : Bool
  pub path_key : List ℕ

module _ (murmur : List ℕ → ℕ → Hash128) where
  -- The rounds `d`, `d + 1`, …, then the string itself.
  unfoldable pub print_bins : List ℕ → ℕ → ℕ → ℕ → ℕ → ℕ → List ℕ → PathKey
  print_bins str len width zero d seed key = record { ok = true; path_key = print_at len key str }
  print_bins str len width (suc rounds) d seed key =
      let seed' = (seed + seed_at (get_elem? seeds (d % 10))) % 2 ^ 32 in
      let s = hex_onto 7 (bin_of (murmur (padded str) seed') width) (b'.' ∷ []) in
      let rest = print_bins str len width rounds (d + 1) seed' (print_at len key s) in
      if leb len (length key + length s)
      then record { ok = false; path_key = print_at len key s }
      else rest

  -- `none` is NULL; `path_key` says that the buffer is not NULL. `strlen (NULL)` and a remainder by
  -- zero are faults.
  unfoldable pub gen_path_key : Option (List ℕ) → Bool → ℕ → ℕ → ℕ → Run PathKey
  gen_path_key none path_key len depth width = fault
  gen_path_key (some str) path_key len depth width =
      if not path_key || len == 0 || length str == 0
      then returned record { ok = false; path_key = [] }
      else if width == 0
      then (if depth == 0 then returned (print_bins str len width depth 0 57 []) else fault)
      else returned (print_bins str len width depth 0 57 [])
