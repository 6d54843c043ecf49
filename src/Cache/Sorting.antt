-- ===== src/Cache/Sorting.antt =====
-- Sorting the candidates for eviction by `dyad_cache_entry_cmp`, and which of them are chosen.
use dyad.Prelude.{
  ◌≤◌, ◌≡◌, ◌≢◌, refl, sym, ap, subst, ◌∙◌, ◌⊎◌, inl, inr, Bool, true, false, List, [], ◌∷◌, ◌++◌,
  arith, ltb, if◌then◌else◌, Bool-cases,
}
use mathlib.Core.List.{Memᴰ, Permᴰ}
use dyad.Cache.{Entry, Order3, greater, dyad_cache_entry_cmp}
use dyad.Cache.Evict.{chosen, size_sum}

-- Each entry is not greater than those behind it.
abbrev pub Sorted : (Entry → Entry → Order3) → List Entry → Type 0
Sorted cmp [] = Unit {0}
Sorted cmp (e ∷ es) = ((x : Entry) → Memᴰ x es → cmp e x ≢ greater) × Sorted cmp es

-- `qsort (3)` sorts, and keeps the elements.
pub record Sorts (qsort : (Entry → Entry → Order3) → List Entry → List Entry) : Type 0 where
  pub sorted : (es : List Entry) → Sorted dyad_cache_entry_cmp (qsort dyad_cache_entry_cmp es)
  pub permutes : (es : List Entry) → Permᴰ es (qsort dyad_cache_entry_cmp es)

pub cmp_key : (a b : Entry) → dyad_cache_entry_cmp a b ≢ greater → a.recency_key ≤ b.recency_key
unfolding dyad_cache_entry_cmp
cmp_key a b h = elim (Bool-cases (ltb b.recency_key a.recency_key)) [
  | inl e ↦ absurd (h (ground arith))
  | inr e ↦ ground arith
]

pub size_sum-Perm : {es es' : List Entry} → Permᴰ es es' → size_sum es ≡ size_sum es'
size_sum-Perm Permᴰ.nil = refl
size_sum-Perm (Permᴰ.cons e p) = omega (arith, ap (λ x. Entry.size x) e, size_sum-Perm p)
size_sum-Perm (Permᴰ.swap e e') = omega (arith, ap (λ x. Entry.size x) e, ap (λ x. Entry.size x) e')
size_sum-Perm (Permᴰ.trans p q) = size_sum-Perm p ∙ size_sum-Perm q

pub Mem-Perm : {es es' : List Entry} {x : Entry} → Permᴰ es es' → Memᴰ x es → Memᴰ x es'
Mem-Perm Permᴰ.nil m = elim m [ ]
Mem-Perm (Permᴰ.cons e p) (Memᴰ.head h) = Memᴰ.head (h ∙ e)
Mem-Perm (Permᴰ.cons e p) (Memᴰ.tail m) = Memᴰ.tail (Mem-Perm p m)
Mem-Perm (Permᴰ.swap e e') (Memᴰ.head h) = Memᴰ.tail (Memᴰ.head (h ∙ e))
Mem-Perm (Permᴰ.swap e e') (Memᴰ.tail (Memᴰ.head h)) = Memᴰ.head (h ∙ e')
Mem-Perm (Permᴰ.swap e e') (Memᴰ.tail (Memᴰ.tail m)) = Memᴰ.tail (Memᴰ.tail m)
Mem-Perm (Permᴰ.trans p q) m = Mem-Perm q (Mem-Perm p m)

append-Mem : (front back : List Entry) (x : Entry) → Memᴰ x back → Memᴰ x (front ++ back)
append-Mem [] back x m = m
append-Mem (y ∷ front) back x m = Memᴰ.tail (append-Mem front back x m)

-- Everything in the front is not greater than anything behind it.
pub Sorted-apart :
    (front back : List Entry) (a b : Entry)
    → Sorted dyad_cache_entry_cmp (front ++ back)
    → Memᴰ a front
    → Memᴰ b back
    → a.recency_key ≤ b.recency_key
Sorted-apart [] back a b s h m = elim h [ ]
Sorted-apart (x ∷ front) back a b s (Memᴰ.head h) m =
    let below = cmp_key x b (s.0 b (append-Mem front back b m)) in
    subst (λ z. Entry.recency_key z ≤ b.recency_key) (sym h) below
Sorted-apart (x ∷ front) back a b s (Memᴰ.tail h) m = Sorted-apart front back a b s.1 h m

pub append-front : (front back : List Entry) (x : Entry) → Memᴰ x front → Memᴰ x (front ++ back)
append-front [] back x m = elim m [ ]
append-front (y ∷ front) back x (Memᴰ.head h) = Memᴰ.head h
append-front (y ∷ front) back x (Memᴰ.tail m) = Memᴰ.tail (append-front front back x m)

pub Mem-append :
    (front back : List Entry) (x : Entry) → Memᴰ x (front ++ back) → Memᴰ x front ⊎ Memᴰ x back
Mem-append [] back x m = inr m
Mem-append (y ∷ front) back x (Memᴰ.head h) = inl (Memᴰ.head h)
Mem-append (y ∷ front) back x (Memᴰ.tail m) = elim (Mem-append front back x m) [
  | inl f ↦ inl (Memᴰ.tail f)
  | inr b ↦ inr b
]

chosen_or :
    (p : Entry → Bool) (e : Entry) (es : List Entry) (x : Entry)
    → (Memᴰ x (chosen p es) → Memᴰ x es × (p x ≡ true))
    → (b : Bool) → p e ≡ b
    → Memᴰ x (if b then e ∷ chosen p es else chosen p es)
    → Memᴰ x (e ∷ es) × (p x ≡ true)
chosen_or p e es x rest true h (Memᴰ.head i) = (Memᴰ.head i, ap p i ∙ h)
chosen_or p e es x rest true h (Memᴰ.tail n) = (Memᴰ.tail (rest n).0, (rest n).1)
chosen_or p e es x rest false h n = (Memᴰ.tail (rest n).0, (rest n).1)

pub Mem-chosen :
    (p : Entry → Bool) (es : List Entry) (x : Entry)
    → Memᴰ x (chosen p es)
    → Memᴰ x es × (p x ≡ true)
Mem-chosen p [] x m = elim m [ ]
Mem-chosen p (e ∷ es) x m = chosen_or p e es x (λ n. Mem-chosen p es x n) (p e) refl m

pub chosen-Mem :
    (p : Entry → Bool) (es : List Entry) (x : Entry) → Memᴰ x es → p x ≡ true → Memᴰ x (chosen p es)
chosen-Mem p [] x m h = elim m [ ]
chosen-Mem p (e ∷ es) x (Memᴰ.head i) h =
    let good : p e ≡ true = sym (ap p i) ∙ h in rw good (Memᴰ.head i)
chosen-Mem p (e ∷ es) x (Memᴰ.tail m) h = elim (Bool-cases (p e)) [
  | inl g ↦ rw g (Memᴰ.tail (chosen-Mem p es x m h))
  | inr g ↦ rw g (chosen-Mem p es x m h)
]

no_front : (front : List Entry) (e : Entry) (back : List Entry) → [] ≡ front ++ e ∷ back → ⊥
no_front [] e back h = cc
no_front (x ∷ front) e back h = cc

-- Where one of the chosen entries stands among all.
abbrev pub Stands : (Entry → Bool) → List Entry → List Entry → Entry → Type 0
Stands p es front a =
    (front' : List Entry) × (back' : List Entry) × (es ≡ front' ++ a ∷ back')
    × (chosen p front' ≡ front)

chosen-taken :
    (p : Entry → Bool) (e : Entry) (es front : List Entry) (a : Entry) (back : List Entry)
    → p e ≡ true
    → ((front' : List Entry) → chosen p es ≡ front' ++ a ∷ back → Stands p es front' a)
    → e ∷ chosen p es ≡ front ++ a ∷ back
    → Stands p (e ∷ es) front a
chosen-taken p e es [] a back good rest h =
    let same : e ≡ a = cc in ([], es, ap (λ x. x ∷ es) same, refl)
chosen-taken p e es (y ∷ front) a back good rest h =
    let same : e ≡ y = cc in
    let (front', back', stands, all) = rest front (cc) in
    (e ∷ front', back', ap (λ l. e ∷ l) stands, rw good (cc))

pub chosen-Stands :
    (p : Entry → Bool) (es front : List Entry) (a : Entry) (back : List Entry)
    → chosen p es ≡ front ++ a ∷ back
    → Stands p es front a
chosen-Stands p [] front a back h = absurd (no_front front a back h)
chosen-Stands p (e ∷ es) front a back h = elim (Bool-cases (p e)) [
  | inl good ↦
      chosen-taken p e es front a back good (λ front' k. chosen-Stands p es front' a back k)
        (rw good at h)
  | inr kept ↦
      let (front', back', stands, all) = chosen-Stands p es front a back (rw kept at h) in
      (e ∷ front', back', ap (λ l. e ∷ l) stands, rw kept all)
]
