-- ===== src/Cache/Order.antt =====
-- `dyad_cache_maybe_evict` unlinks in the order of the policy: no file goes while a candidate that
-- comes before it, and that could go, stays.
use dyad.Prelude.{
  ℕ, ◌+◌, ◌^◌, ◌≤◌, ◌<◌, ◌≡◌, refl, sym, ap, subst, ◌∙◌, ◌⊎◌, inl, inr, Bool, true, false, not,
  ◌&&◌, ◌||◌, List, [], ◌∷◌, ◌++◌, some, arith, ltb, ◌==◌, if◌then◌else◌, length, Bool-cases,
}
use mathlib.Core.List.{Memᴰ}
use mathlib.Core.List.Permᴰ
use dyad.Prelude.Run.{returned}
use dyad.Core.Codes.{rc_ok, rc_badfio}
use dyad.Core.Context.{Ctx}
use dyad.Cache.{
  Entry, Dir, KeyOf, dyad_cache_entry_cmp, dyad_cache_scan_dir, Evicted, World, evict_loop,
  evict_locked, untouched, dyad_cache_maybe_evict, is_none, u64, nothing,
}
use dyad.Cache.Scan.{candidates, dyad_cache_scan_dir_lem}
use dyad.Cache.Evict.{evictable, size_sum, Went, evict_loop_lem}
use dyad.Cache.Sorting.{
  Sorts, size_sum-Perm, Mem-Perm, Sorted-apart, append-front, Mem-append, Mem-chosen, chosen-Mem,
  chosen-Stands,
}

-- What a call of `dyad_cache_maybe_evict` did to the candidates `es` of its second look.
pub record InOrder (ctx : Ctx) (w : World) (es : List Entry) (r : Evicted) : Type 0 where
  -- Only candidates that may go.
  pub allowed :
      (a : Entry)
      → Memᴰ a r.unlinked
      → Memᴰ a es × (evictable w.victims w.now ctx.cache_grace_period_sec a ≡ true)
  -- Nothing that may go and comes before is left.
  pub ordered :
      (a b : Entry)
      → Memᴰ a r.unlinked
      → Memᴰ b es
      → evictable w.victims w.now ctx.cache_grace_period_sec b ≡ true
      → (Memᴰ b r.unlinked) ⊎ (a.recency_key ≤ b.recency_key)
  -- Each file goes while the size, less what went before it, is above the low watermark.
  pub needed :
      (front : List Entry) (a : Entry) (back : List Entry)
      → r.unlinked ≡ front ++ a ∷ back
      → ctx.low_watermark + size_sum front < size_sum es
  -- The size is at most the low watermark, or nothing that may go stays.
  pub enough :
      (r.total_size ≤ ctx.low_watermark)
      ⊎ ((b : Entry)
          → Memᴰ b es
          → evictable w.victims w.now ctx.cache_grace_period_sec b ≡ true
          → Memᴰ b r.unlinked)
  pub freed : r.bytes_freed ≡ size_sum r.unlinked
  pub left : r.total_size + r.bytes_freed ≡ size_sum es

Went-InOrder :
    (ctx : Ctx) (w : World) (es : List Entry) (r : Evicted)
    → Sorts w.qsort
    → Went w.victims w.now ctx.cache_grace_period_sec ctx.low_watermark
        (w.qsort dyad_cache_entry_cmp es)
        (untouched (size_sum es))
        r
    → InOrder ctx w es r
Went-InOrder ctx w es r q h = record {
  allowed = λ a m.
      let (seen, good) = Mem-chosen p h.seen a (rw h.unlinked at m) in
      (from_sorted a (append-front h.seen h.rest a seen), good);
  ordered = λ a b m n good. elim (position b n) [
    | inl seen ↦ inl (rw h.unlinked (chosen-Mem p h.seen b seen good))
    | inr rest ↦ inr (
        Sorted-apart h.seen h.rest a b (rw h.split at (q.sorted es))
          (Mem-chosen p h.seen a (rw h.unlinked at m)).0 rest)
  ];
  needed = λ front a back e.
      let (front', back', stands, all) = chosen-Stands p h.seen front a back (sym h.unlinked ∙ e) in
      subst (λ l. ctx.low_watermark + size_sum l < size_sum es) all
        (h.needed front' a back' stands);
  enough = elim h.stops [
    | inr low ↦ inl low
    | inl no_rest ↦ inr (λ b n good. elim (position b n) [
      | inl seen ↦ rw h.unlinked (chosen-Mem p h.seen b seen good)
      | inr rest ↦ absurd (no_entry b (rw no_rest at rest))
    ])
  ];
  freed = omega (arith, h.freed, ap size_sum h.unlinked);
  left = omega (arith, h.left, h.freed);
}
  where
    p : Entry → Bool
    p = evictable w.victims w.now ctx.cache_grace_period_sec

    position : (b : Entry) → Memᴰ b es → Memᴰ b h.seen ⊎ Memᴰ b h.rest
    position b n = Mem-append h.seen h.rest b (rw h.split at (Mem-Perm (q.permutes es) n))

    no_entry : (b : Entry) → Memᴰ b [] → ⊥
    no_entry b m = elim m [ ]

    from_sorted : (a : Entry) → Memᴰ a (h.seen ++ h.rest) → Memᴰ a es
    from_sorted a m = Mem-Perm (Permᴰ.symm (q.permutes es)) (subst (λ l. Memᴰ a l) (sym h.split) m)

module _ (key : KeyOf) (ctx : Ctx) (managed_path : List ℕ) (w : World) where
  abbrev first : List Entry
  first = candidates key managed_path w.first_look w.first_look.names

  abbrev second : List Entry
  second = candidates key managed_path w.second_look w.second_look.names

  abbrev off : Bool
  off = ctx.cache_capacity_bytes == 0 || is_none ctx.cache_policy_mode

  abbrev first_half : Bool
  first_half =
      not off
      && w.first_look.opens
      && ltb ctx.cache_capacity_bytes (size_sum first)
      && w.open_lock
      && w.excl_lock

  abbrev second_half : Bool
  second_half = w.second_look.opens && ltb ctx.cache_capacity_bytes (size_sum second)

  -- Eviction is on, and both looks find more than the capacity, the second with the lock held.
  abbrev pub proceeds : Bool
  proceeds = first_half && second_half

  -- The scan when no `realloc` fails.
  scans :
      (dir : Dir)
      → length dir.names < 2 ^ 62
      → ((c : ℕ) → dir.growth c ≡ true)
      → size_sum (candidates key managed_path dir dir.names) < 2 ^ 64
      → dyad_cache_scan_dir key managed_path dir
        ≡ returned (
            if dir.opens
            then (
              record {
                entries = candidates key managed_path dir dir.names;
                total_size = size_sum (candidates key managed_path dir dir.names);
              },
              rc_ok,
            )
            else (nothing, rc_badfio))
  unfolding dyad_cache_scan_dir
  scans dir few grows small = elim (Bool-cases dir.opens) [
    | inr e ↦ ground (arith, e)
    | inl e ↦
        let (r, runs, why) = dyad_cache_scan_dir_lem key managed_path dir few in
        elim why [
          | inl (_, closed) ↦ cc
          | inr (inl (_, (c, refuses))) ↦ absurd (ground (arith, grows c))
          | inr (inr all) ↦
              let same_total : u64 (size_sum (candidates key managed_path dir dir.names))
                  ≡ size_sum (candidates key managed_path dir dir.names) =
                omega arith in
              runs ∙ ap returned (all ∙ ground (arith, e, same_total))
        ]
  ]

  evict_locked_lem :
      Sorts w.qsort
      → length w.second_look.names < 2 ^ 62
      → ((c : ℕ) → w.second_look.growth c ≡ true)
      → size_sum second < 2 ^ 64
      → (r : Evicted) × (evict_locked key ctx managed_path w ≡ returned (r, rc_ok))
        × (((second_half ≡ true) × InOrder ctx w second r)
            ⊎ ((second_half ≡ false) × (r.unlinked ≡ [])))
  unfolding evict_locked
  evict_locked_lem q few grows small = elim (Bool-cases second_half) [
    | inr e ↦ (
      untouched (if w.second_look.opens then size_sum second else 0),
      ground (arith, e, scans w.second_look few grows small),
      inr (e, refl),
    )
    | inl e ↦ (
      evict_loop w.victims w.now ctx.cache_grace_period_sec ctx.low_watermark
          (w.qsort dyad_cache_entry_cmp second) (untouched (size_sum second)),
      ground (arith, e, scans w.second_look few grows small),
      inl (
        e,
        Went-InOrder ctx w second _ q (
            evict_loop_lem w.victims w.now ctx.cache_grace_period_sec ctx.low_watermark
              (w.qsort dyad_cache_entry_cmp second) (untouched (size_sum second))
              (omega (arith, same_sum)) small (omega (arith, same_sum))),
      ),
    )
  ]
    where
      same_sum : size_sum second ≡ size_sum (w.qsort dyad_cache_entry_cmp second)
      same_sum = size_sum-Perm (q.permutes second)

  -- With `qsort` as documented, if no `realloc` fails and the sizes of the candidates fit 64 bits, the
  -- call answers DYAD_RC_OK. If eviction is on and both looks find more than the capacity, it unlinks
  -- candidates in the order of the policy, only those that may go (not in the grace period, not
  -- locked), passes over none that may go and comes before, unlinks each only while the size is above
  -- the low watermark, and goes on until it is not or nothing that may go is left; it frees the sizes of what it unlinks. Otherwise it
  -- unlinks nothing.
  pub dyad_cache_maybe_evict_lem :
      Sorts w.qsort
      → length w.first_look.names < 2 ^ 62
      → length w.second_look.names < 2 ^ 62
      → ((c : ℕ) → w.first_look.growth c ≡ true)
      → ((c : ℕ) → w.second_look.growth c ≡ true)
      → size_sum first < 2 ^ 64
      → size_sum second < 2 ^ 64
      → (r : Evicted) × (dyad_cache_maybe_evict key (some ctx) (some managed_path) w
          ≡ returned (r, rc_ok))
        × (((proceeds ≡ true) × InOrder ctx w second r) ⊎ ((proceeds ≡ false) × (r.unlinked ≡ [])))
  unfolding dyad_cache_maybe_evict
  dyad_cache_maybe_evict_lem q few few' grows grows' small small' =
      let (r, runs, done) = evict_locked_lem q few' grows' small' in
      elim (Bool-cases first_half) [
        | inr e ↦ (
          untouched (if off then 0 else if w.first_look.opens then size_sum first else 0),
          ground (arith, e, scans w.first_look few grows small),
          inr (ground (arith, e), refl),
        )
        | inl e ↦ (
          r,
          ground (arith, e, scans w.first_look few grows small, runs),
          elim done [
            | inl (e', good) ↦ inl (ground (arith, e, e'), good)
            | inr (e', none_gone) ↦ inr (ground (arith, e, e'), none_gone)
          ],
        )
      ]
