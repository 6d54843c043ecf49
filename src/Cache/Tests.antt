-- ===== src/Cache/Tests.antt =====
-- A directory with two files, "/m/a" and "/m/b", and a capacity of 10 bytes.
use dyad.Prelude.{
  ℕ, ◌^◌, ◌≤◌, ◌<◌, ◌≡◌, ◌≢◌, refl, sym, subst, ◌⊎◌, inl, inr, Bool, true, false, List, [], ◌∷◌,
  Option, some, arith, if◌then◌else◌, Bool-cases,
}
use mathlib.Core.List.{Memᴰ, Permᴰ}
use mathlib.Core.List.Permᴰ
use dyad.Prelude.Run.{returned}
use dyad.Core.Codes.{rc_ok}
use dyad.Core.Context.{Ctx, cache_lru}
use dyad.Core.Samples.{sample_ctx}
use dyad.Utils.Strings.{strncmp_eq}
use dyad.Cache.{
  Stat, Entry, Dir, Evicted, World, Victims, Order3, greater, candidate, scan_names,
  dyad_cache_scan_dir, dyad_cache_entry_cmp, evict_loop, evict_locked, dyad_cache_maybe_evict,
}
use dyad.Cache.Policy.{dyad_cache_lru_get_recency_key}
use dyad.Cache.Scan.{candidates}
use dyad.Cache.Evict.{size_sum}
use dyad.Cache.Sorting.{cmp_key, Mem-Perm, Sorted, Sorts}
use dyad.Cache.Order.{InOrder, proceeds, dyad_cache_maybe_evict_lem}

program : Unit {0}
unfolding strncmp_eq candidate scan_names dyad_cache_scan_dir dyad_cache_entry_cmp evict_loop
    evict_locked dyad_cache_maybe_evict
program = tt

-- An insertion sort in place of `qsort`.
is_greater : Order3 → Bool
is_greater greater = true
is_greater _ = false

insert : (Entry → Entry → Order3) → Entry → List Entry → List Entry
unfolding is_greater
insert cmp e [] = e ∷ []
insert cmp e (x ∷ xs) = if is_greater (cmp e x) then x ∷ insert cmp e xs else e ∷ x ∷ xs

insertion_sort : (Entry → Entry → Order3) → List Entry → List Entry
unfolding insert
insertion_sort cmp [] = []
insertion_sort cmp (e ∷ es) = insert cmp e (insertion_sort cmp es)

insert-Perm :
    (cmp : Entry → Entry → Order3) (e : Entry) (es : List Entry) → Permᴰ (e ∷ es) (insert cmp e es)
unfolding insert
insert-Perm cmp e [] = Permᴰ.refl (e ∷ [])
insert-Perm cmp e (x ∷ xs) = elim (Bool-cases (is_greater (cmp e x))) [
  | inr h ↦ rw (h, insert) (Permᴰ.refl (e ∷ x ∷ xs))
  | inl h ↦
      rw (h, insert) (Permᴰ.trans (Permᴰ.swap refl refl) (Permᴰ.cons refl (insert-Perm cmp e xs)))
]

sort-Perm : (cmp : Entry → Entry → Order3) (es : List Entry) → Permᴰ es (insertion_sort cmp es)
unfolding insertion_sort
sort-Perm cmp [] = Permᴰ.nil
sort-Perm cmp (e ∷ es) =
    Permᴰ.trans (Permᴰ.cons refl (sort-Perm cmp es)) (insert-Perm cmp e (insertion_sort cmp es))

key_cmp : (a b : Entry) → a.recency_key ≤ b.recency_key → dyad_cache_entry_cmp a b ≢ greater
unfolding dyad_cache_entry_cmp
key_cmp a b h e = absurd (ground arith)

less_of_greater :
    (a b : Entry) → is_greater (dyad_cache_entry_cmp a b) ≡ true → b.recency_key ≤ a.recency_key
unfolding dyad_cache_entry_cmp is_greater
less_of_greater a b h = ground arith

not_greater :
    (a b : Entry) → is_greater (dyad_cache_entry_cmp a b) ≡ false → a.recency_key ≤ b.recency_key
unfolding dyad_cache_entry_cmp is_greater
not_greater a b h = ground arith

insert-Sorted :
    (e : Entry) (es : List Entry)
    → Sorted dyad_cache_entry_cmp es
    → Sorted dyad_cache_entry_cmp (insert dyad_cache_entry_cmp e es)
unfolding insert
insert-Sorted e [] s = ((λ x m. elim m [ ]), tt)
insert-Sorted e (x ∷ xs) s = elim (Bool-cases (is_greater (dyad_cache_entry_cmp e x))) [
  | inl h ↦
      rw (h, insert)
        (
          (λ z m.
              after z (less_of_greater e x h)
                (Mem-Perm (Permᴰ.symm (insert-Perm dyad_cache_entry_cmp e xs)) m)),
          insert-Sorted e xs s.1,
        )
  | inr h ↦ rw (h, insert) ((λ z m. before z (not_greater e x h) m), s)
]
  where
    after :
        (z : Entry)
        → x.recency_key ≤ e.recency_key
        → Memᴰ z (e ∷ xs)
        → dyad_cache_entry_cmp x z ≢ greater
    after z h (Memᴰ.head i) =
        subst (λ y. dyad_cache_entry_cmp x y ≢ greater) (sym i) (key_cmp x e h)
    after z h (Memᴰ.tail m) = s.0 z m

    before :
        (z : Entry)
        → e.recency_key ≤ x.recency_key
        → Memᴰ z (x ∷ xs)
        → dyad_cache_entry_cmp e z ≢ greater
    before z h (Memᴰ.head i) =
        subst (λ y. dyad_cache_entry_cmp e y ≢ greater) (sym i) (key_cmp e x h)
    before z h (Memᴰ.tail m) = key_cmp e z (omega (arith, h, cmp_key x z (s.0 z m)))

sort-Sorted :
    (es : List Entry) → Sorted dyad_cache_entry_cmp (insertion_sort dyad_cache_entry_cmp es)
unfolding insertion_sort
sort-Sorted [] = tt
sort-Sorted (e ∷ es) = insert-Sorted e (insertion_sort dyad_cache_entry_cmp es) (sort-Sorted es)

insertion_sort-Sorts : Sorts insertion_sort
insertion_sort-Sorts = record {
  sorted = sort-Sorted;
  permutes = λ es. sort-Perm dyad_cache_entry_cmp es;
}

abbrev name_a : List ℕ
name_a = b'a' ∷ []

abbrev name_b : List ℕ
name_b = b'b' ∷ []

abbrev managed : List ℕ
managed = b'/' ∷ b'm' ∷ []

-- Both files have 8 bytes; "a" was read at second 20, every other path at second 10.
abbrev stat_of : List ℕ → Option Stat
stat_of path = some (record {
  is_reg = true;
  st_size = 8;
  st_atime = (if strncmp_eq path (b'/' ∷ b'm' ∷ b'/' ∷ b'a' ∷ []) 5 then 20 else 10);
  st_mtime = 5;
})

abbrev dir : Dir
dir = record { opens = true; names = name_a ∷ name_b ∷ []; stat = stat_of; growth = λ _. true }

abbrev victims : Victims
victims = record { opens = λ _. true; try_lock = λ _. rc_ok; unlinks = λ _. true }

abbrev world : World
world = record {
  first_look = dir;
  open_lock = true;
  excl_lock = true;
  second_look = dir;
  qsort = insertion_sort;
  now = 100;
  victims = victims;
}

abbrev limited : Ctx
limited = record sample_ctx {
  cache_policy_mode = cache_lru;
  cache_capacity_bytes = 10;
  low_watermark = 8;
  cache_grace_period_sec = 30;
}

abbrev entry_a : Entry
entry_a = record { path = b'/' ∷ b'm' ∷ b'/' ∷ b'a' ∷ []; size = 8; atime = 20; recency_key = 20 }

abbrev entry_b : Entry
entry_b = record { path = b'/' ∷ b'm' ∷ b'/' ∷ b'b' ∷ []; size = 8; atime = 10; recency_key = 10 }

-- "b" goes, and its 8 bytes are enough.
evicts :
    dyad_cache_maybe_evict (some dyad_cache_lru_get_recency_key) (some limited) (some managed) world
    ≡ returned (record { unlinked = entry_b ∷ []; total_size = 8; bytes_freed = 8 }, rc_ok)
unfolding program insertion_sort
evicts = refl

both :
    candidates (some dyad_cache_lru_get_recency_key) managed dir dir.names ≡ entry_a ∷ entry_b ∷ []
unfolding program
both = refl

fits : size_sum (candidates (some dyad_cache_lru_get_recency_key) managed dir dir.names) < 2 ^ 64
fits = rw both (omega arith)

dyad_cache_maybe_evict_lem_example :
    (r : Evicted) × (dyad_cache_maybe_evict
        (some dyad_cache_lru_get_recency_key)
        (some limited)
        (some managed)
        world
      ≡ returned (r, rc_ok))
    × (((proceeds (some dyad_cache_lru_get_recency_key) limited managed world ≡ true)
          × InOrder limited world
              (candidates (some dyad_cache_lru_get_recency_key) managed dir dir.names)
              r)
        ⊎ ((proceeds (some dyad_cache_lru_get_recency_key) limited managed world ≡ false)
            × (r.unlinked ≡ [])))
dyad_cache_maybe_evict_lem_example =
    dyad_cache_maybe_evict_lem (some dyad_cache_lru_get_recency_key) limited managed world
      insertion_sort-Sorts (omega arith) (omega arith) (λ c. refl) (λ c. refl) fits fits

abbrev lru_name : List ℕ
lru_name = b'L' ∷ b'R' ∷ b'U' ∷ []
