-- ===== src/RangeCache/Bounds.antt =====
-- A request within the origin stays within the bitmap.
use dyad.Prelude.{ℕ, ◌+◌, ◌-◌, ◌*◌, ◌/◌, ◌^◌, ◌≤◌, ◌<◌, arith}
use dyad.RangeCache.{u64, block_size, num_blocks, bitmap_bytes, rounds}

-- The bitmap has a bit for each block of the file.
pub blocks_fit :
    (size block : ℕ)
    → size + block_size < 2 ^ 64
    → block * block_size < size
    → block + 1 ≤ 8 * bitmap_bytes (num_blocks size)
unfolding num_blocks bitmap_bytes
blocks_fit size block small inside = omega arith

-- The last block of a request that is not empty and ends within the file.
pub last_block :
    (offset len size : ℕ)
    → size + block_size < 2 ^ 64
    → 0 < len
    → offset + len ≤ size
    → (u64 (offset + len + 2 ^ 64 - 1) / block_size * block_size < size)
      × (offset / block_size ≤ u64 (offset + len + 2 ^ 64 - 1) / block_size)
      × (offset + len ≤ (u64 (offset + len + 2 ^ 64 - 1) / block_size + 1) * block_size)
last_block offset len size small some fits = omega arith

pub rounds_within :
    (block_start block_end bytes : ℕ)
    → block_start ≤ block_end
    → block_end + 1 ≤ 8 * bytes
    → block_start + rounds block_start block_end ≤ 8 * bytes
rounds_within block_start block_end bytes ordered fits = omega arith
