-- ===== src/RangeCache/Slots.antt =====
-- What the storage operations leave at each index.
use dyad.Prelude.{
  ℕ, zero, suc, ◌+◌, ◌-◌, ◌≤◌, ◌<◌, ◌≡◌, refl, ◌∙◌, List, [], ◌∷◌, ◌++◌, some, arith, length,
  get_elem?, take, drop, replicate, length-append, length-take, length-replicate, get_elem?-take,
  get_elem?-drop, get_elem?-append_left, get_elem?-append_right, get_elem?-replicate,
}
use dyad.RangeCache.{resized, write_at, read_at}

pub length-resized : (n : ℕ) (xs : List ℕ) → length (resized n xs) ≡ n
unfolding resized
length-resized n xs = omega (
  arith,
  length-append (take n xs) (replicate (n - length xs) 0),
  length-take n xs,
  length-replicate {A = ℕ} (n - length xs) 0,
)

-- An entry that was there stays.
pub get_elem?-resized :
    (n : ℕ) (xs : List ℕ) (i : ℕ)
    → i < n
    → i < length xs
    → get_elem? (resized n xs) i ≡ get_elem? xs i
unfolding resized
get_elem?-resized n xs i below there =
    get_elem?-append_left (take n xs) _ i (omega (arith, length-take n xs))
    ∙ get_elem?-take n xs i below

-- The rest is zero.
pub get_elem?-resized_new :
    (n : ℕ) (xs : List ℕ) (i : ℕ) → i < n → length xs ≤ i → get_elem? (resized n xs) i ≡ some 0
unfolding resized
get_elem?-resized_new n xs i below new =
    get_elem?-append_right (take n xs) (replicate (n - length xs) 0) i (i - length xs)
      (omega (arith, length-take n xs))
    ∙ get_elem?-replicate (n - length xs) 0 (i - length xs) (omega arith)

-- What `write_at` puts in front of the bytes has `off` entries.
head_length : (off : ℕ) (xs : List ℕ) → length (take off xs ++ replicate (off - length xs) 0) ≡ off
head_length off xs = omega (
  arith,
  length-append (take off xs) (replicate (off - length xs) 0),
  length-take off xs,
  length-replicate {A = ℕ} (off - length xs) 0,
)

pub get_elem?-write_at :
    (off : ℕ) (bytes xs : List ℕ) (i j : ℕ)
    → i ≡ off + j
    → j < length bytes
    → get_elem? (write_at off bytes xs) i ≡ get_elem? bytes j
unfolding write_at
get_elem?-write_at off bytes xs i j e h =
    get_elem?-append_left (take off xs ++ replicate (off - length xs) 0 ++ bytes) _ i (
      omega (
        arith,
        head_length off xs,
        length-append (take off xs ++ replicate (off - length xs) 0) bytes,
      ))
    ∙ get_elem?-append_right (take off xs ++ replicate (off - length xs) 0) bytes i j
        (omega (arith, head_length off xs))

pub get_elem?-write_at_before :
    (off : ℕ) (bytes xs : List ℕ) (i : ℕ)
    → i < off
    → i < length xs
    → get_elem? (write_at off bytes xs) i ≡ get_elem? xs i
unfolding write_at
get_elem?-write_at_before off bytes xs i before there =
    get_elem?-append_left (take off xs ++ replicate (off - length xs) 0 ++ bytes) _ i (
      omega (
        arith,
        head_length off xs,
        length-append (take off xs ++ replicate (off - length xs) 0) bytes,
      ))
    ∙ get_elem?-append_left (take off xs ++ replicate (off - length xs) 0) bytes i
        (omega (arith, head_length off xs))
    ∙ get_elem?-append_left (take off xs) _ i (omega (arith, length-take off xs))
    ∙ get_elem?-take off xs i before

pub get_elem?-write_at_after :
    (off : ℕ) (bytes xs : List ℕ) (i : ℕ)
    → off + length bytes ≤ i
    → get_elem? (write_at off bytes xs) i ≡ get_elem? xs i
unfolding write_at
get_elem?-write_at_after off bytes xs i after =
    get_elem?-append_right (take off xs ++ replicate (off - length xs) 0 ++ bytes)
      (drop (off + length bytes) xs) i (i - (off + length bytes))
      (omega (
        arith,
        head_length off xs,
        length-append (take off xs ++ replicate (off - length xs) 0) bytes,
      ))
    ∙ get_elem?-drop (off + length bytes) xs (i - (off + length bytes)) i (omega arith)

pub get_elem?-read_at :
    (off n : ℕ) (xs : List ℕ) (i j : ℕ)
    → i ≡ off + j
    → j < n
    → get_elem? (read_at off n xs) j ≡ get_elem? xs i
get_elem?-read_at off n xs i j e h =
    get_elem?-take n (drop off xs) j h ∙ get_elem?-drop off xs j i (omega arith)

-- An index below the length has an entry, and an entry an index below the length.
pub entry_at : (xs : List ℕ) (i : ℕ) → i < length xs → (x : ℕ) × (get_elem? xs i ≡ some x)
entry_at [] i h = elim h [ ]
entry_at (x ∷ xs) zero h = (x, refl)
entry_at (x ∷ xs) (suc i) h = entry_at xs i (omega arith)

pub lt_of_entry {ℓ} :
    {A : Type ℓ} (xs : List A) (i : ℕ) {x : A} → get_elem? xs i ≡ some x → i < length xs
lt_of_entry [] i h = cc
lt_of_entry (y ∷ ys) zero h = omega arith
lt_of_entry (y ∷ ys) (suc i) h = omega (arith, lt_of_entry ys i h)
