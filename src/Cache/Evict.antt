-- ===== src/Cache/Evict.antt =====
-- Which entries the eviction loop unlinks, and what it frees.
use dyad.Prelude.{
  ℕ, ◌+◌, ◌-◌, ◌^◌, ◌≤◌, ◌<◌, ◌≡◌, refl, sym, ap, subst, ◌∙◌, ◌⊎◌, inl, inr, Bool, true, false, not,
  ◌&&◌, List, [], ◌∷◌, ◌++◌, arith, leb, if◌then◌else◌, Bool-cases,
}
use mathlib.Core.List.{append_assoc, append-nil}
use dyad.Cache.{Entry, Victims, Evicted, evict_loop, in_grace, is_ok, u64}

-- Not accessed within the grace period, there, not locked, and the unlink succeeds.
abbrev pub evictable : Victims → ℕ → ℕ → Entry → Bool
evictable vs now grace e =
    not (in_grace now grace e) && vs.opens e.path && is_ok (vs.try_lock e.path) && vs.unlinks e.path

abbrev pub chosen : (Entry → Bool) → List Entry → List Entry
chosen p [] = []
chosen p (e ∷ es) = if p e then e ∷ chosen p es else chosen p es

abbrev pub size_sum : List Entry → ℕ
size_sum [] = 0
size_sum (e ∷ es) = e.size + size_sum es

module _ (vs : Victims) (now grace low_watermark : ℕ) where
  abbrev removed : Entry → Evicted → Evicted
  removed e s = record {
    unlinked = s.unlinked ++ e ∷ [];
    total_size = u64 (s.total_size + 2 ^ 64 - u64 e.size);
    bytes_freed = u64 (s.bytes_freed + e.size);
  }

  -- How a run over `es` from `s` to `r` went: `seen` was looked at, and `rest` was not.
  pub record Went (es : List Entry) (s r : Evicted) : Type 0 where
    pub seen : List Entry
    pub rest : List Entry
    pub split : es ≡ seen ++ rest
    pub unlinked : r.unlinked ≡ s.unlinked ++ chosen (evictable vs now grace) seen
    pub left : r.total_size + size_sum (chosen (evictable vs now grace) seen) ≡ s.total_size
    pub freed : r.bytes_freed ≡ s.bytes_freed + size_sum (chosen (evictable vs now grace) seen)
    pub stops : (rest ≡ []) ⊎ (r.total_size ≤ low_watermark)
    pub needed :
        (front : List Entry) (e : Entry) (back : List Entry)
        → seen ≡ front ++ e ∷ back
        → low_watermark + size_sum (chosen (evictable vs now grace) front) < s.total_size

  stop-Went :
      (es : List Entry) (s : Evicted) → (es ≡ []) ⊎ (s.total_size ≤ low_watermark) → Went es s s
  stop-Went es s why = record {
    seen = [];
    rest = es;
    split = refl;
    unlinked = sym (append-nil s.unlinked);
    left = omega arith;
    freed = omega arith;
    stops = why;
    needed = λ front e back h. absurd (no_front front e back h);
  }
    where
      no_front : (front : List Entry) (e : Entry) (back : List Entry) → [] ≡ front ++ e ∷ back → ⊥
      no_front [] e back h = cc
      no_front (x ∷ front) e back h = cc

  skip-Went :
      (e : Entry) (es : List Entry) (s r : Evicted)
      → low_watermark < s.total_size
      → evictable vs now grace e ≡ false
      → Went es s r
      → Went (e ∷ es) s r
  skip-Went e es s r over kept w = record {
    seen = e ∷ w.seen;
    rest = w.rest;
    split = ap (λ x. e ∷ x) w.split;
    unlinked = rw kept w.unlinked;
    left = rw kept w.left;
    freed = rw kept w.freed;
    stops = w.stops;
    needed = needed';
  }
    where
      needed' :
          (front : List Entry) (x : Entry) (back : List Entry)
          → e ∷ w.seen ≡ front ++ x ∷ back
          → low_watermark + size_sum (chosen (evictable vs now grace) front) < s.total_size
      needed' [] x back h = omega arith
      needed' (y ∷ front) x back h =
          let same : e ≡ y = cc in
          let tail : w.seen ≡ front ++ x ∷ back = cc in
          subst
            (λ z.
              low_watermark + size_sum (chosen (evictable vs now grace) (z ∷ front)) < s.total_size)
            same (rw kept (w.needed front x back tail))

  remove-Went :
      (e : Entry) (es : List Entry) (s r : Evicted)
      → low_watermark < s.total_size
      → e.size ≤ s.total_size
      → s.total_size < 2 ^ 64
      → s.bytes_freed + e.size < 2 ^ 64
      → evictable vs now grace e ≡ true
      → Went es (removed e s) r
      → Went (e ∷ es) s r
  remove-Went e es s r over fits small free goes w = record {
    seen = e ∷ w.seen;
    rest = w.rest;
    split = ap (λ x. e ∷ x) w.split;
    unlinked =
        rw goes
          (w.unlinked ∙ append_assoc s.unlinked (e ∷ []) (chosen (evictable vs now grace) w.seen));
    left = rw goes (omega (arith, w.left));
    freed = rw goes (omega (arith, w.freed));
    stops = w.stops;
    needed = needed';
  }
    where
      needed' :
          (front : List Entry) (x : Entry) (back : List Entry)
          → e ∷ w.seen ≡ front ++ x ∷ back
          → low_watermark + size_sum (chosen (evictable vs now grace) front) < s.total_size
      needed' [] x back h = omega arith
      needed' (y ∷ front) x back h =
          let same : e ≡ y = cc in
          let tail : w.seen ≡ front ++ x ∷ back = cc in
          let before = w.needed front x back tail in
          subst
            (λ z.
              low_watermark + size_sum (chosen (evictable vs now grace) (z ∷ front)) < s.total_size)
            same (rw goes (omega (arith, before)))

  -- The loop looks at the entries from the first on, each while the size is above the low watermark,
  -- and unlinks those it looks at that are evictable: accessed before the grace period, there, not
  -- locked, and `unlink` succeeds. It ends at the end of the entries or with a size of at most the
  -- low watermark. The size left and the bytes freed are exact, if the sizes of the entries add up to
  -- at most the size at the start and no count passes 64 bits.
  pub evict_loop_lem :
      (es : List Entry) (s : Evicted)
      → size_sum es ≤ s.total_size
      → s.total_size < 2 ^ 64
      → s.bytes_freed + size_sum es < 2 ^ 64
      → Went es s (evict_loop vs now grace low_watermark es s)
  unfolding evict_loop
  evict_loop_lem [] s fits small free = stop-Went [] s (inl refl)
  evict_loop_lem (e ∷ es) s fits small free = elim (Bool-cases (leb s.total_size low_watermark)) [
    | inl at_end ↦ rw (at_end, evict_loop) (stop-Went (e ∷ es) s (inr (ground arith)))
    | inr over ↦ elim (Bool-cases (evictable vs now grace e)) [
      | inl goes ↦
          let eq : evict_loop vs now grace low_watermark (e ∷ es) s
              ≡ evict_loop vs now grace low_watermark es (removed e s) =
            ground (arith, over, goes) in
          subst (Went (e ∷ es) s) (sym eq) (
            remove-Went e es s _ (ground arith) (omega arith) small (omega arith) goes
              (evict_loop_lem es (removed e s) (omega arith) (omega arith) (omega arith)))
      | inr kept ↦
          let eq : evict_loop vs now grace low_watermark (e ∷ es) s
              ≡ evict_loop vs now grace low_watermark es s =
            ground (arith, over, kept) in
          subst (Went (e ∷ es) s) (sym eq) (
            skip-Went e es s _ (ground arith) kept
              (evict_loop_lem es s (omega arith) small (omega arith)))
    ]
  ]
