-- ===== src/Client/PathKey/Recover.antt =====
-- What a key of the KVS determines.
use dyad.Prelude.{
  ℕ, zero, suc, ◌+◌, ◌-◌, ◌*◌, ◌/◌, ◌%◌, ◌^◌, ◌≤◌, ◌<◌, ◌≡◌, refl, ap, ◌∙◌, true, false, List, [],
  ◌∷◌, ◌++◌, inl, inr, some, leb, ◌==◌, if◌then◌else◌, length, arith, Bool-cases, get_elem?,
  take_all, length-append,
}
use mathlib.Core.List.{append_assoc}
use dyad.Prelude.Run.{returned}
use dyad.Utils.Paths.{Hash128, padded}
use dyad.Client.PathKey.{hex_digit, hex_onto, print_bins, gen_path_key, seeds, seed_at, bin_of}

-- What stands behind the first `dots` dots of a text.
unfoldable pub after_dots : ℕ → List ℕ → List ℕ
after_dots zero xs = xs
after_dots (suc dots) [] = []
after_dots (suc dots) (x ∷ xs) =
    let found = after_dots dots xs in
    let on = after_dots (suc dots) xs in if x == b'.' then found else on

hex_digit-dot : (n : ℕ) → (hex_digit n == b'.') ≡ false
hex_digit-dot n = ground arith

after_dots-digit :
    (dots n : ℕ) (rest : List ℕ)
    → after_dots (suc dots) (hex_digit n ∷ rest) ≡ after_dots (suc dots) rest
unfolding after_dots
after_dots-digit dots n rest = rw (hex_digit-dot n) refl

after_dots-hex_onto :
    (fuel dots n : ℕ) (rest : List ℕ)
    → after_dots (suc dots) (hex_onto fuel n rest) ≡ after_dots (suc dots) rest
unfolding hex_onto
after_dots-hex_onto zero dots n rest = after_dots-digit dots (n % 16) rest
after_dots-hex_onto (suc fuel) dots n rest = elim (Bool-cases (n / 16 == 0)) [
  | inl e ↦ rw e (after_dots-digit dots (n % 16) rest)
  | inr e ↦ rw e (
      after_dots-hex_onto fuel dots (n / 16) (hex_digit (n % 16) ∷ rest)
      ∙ after_dots-digit dots (n % 16) rest)
]

hex_onto-++ :
    (fuel n : ℕ) (rest more : List ℕ)
    → hex_onto fuel n rest ++ more ≡ hex_onto fuel n (rest ++ more)
unfolding hex_onto
hex_onto-++ zero n rest more = refl
hex_onto-++ (suc fuel) n rest more = elim (Bool-cases (n / 16 == 0)) [
  | inl e ↦ rw e refl
  | inr e ↦ rw e (hex_onto-++ fuel (n / 16) (hex_digit (n % 16) ∷ rest) more)
]

length-hex_onto :
    (fuel n : ℕ) (rest : List ℕ) → length (hex_onto fuel n rest) ≤ fuel + 1 + length rest
unfolding hex_onto
length-hex_onto zero n rest = ground arith
length-hex_onto (suc fuel) n rest = elim (Bool-cases (n / 16 == 0)) [
  | inl e ↦ rw e (omega arith)
  | inr e ↦ rw e (omega (arith, length-hex_onto fuel (n / 16) (hex_digit (n % 16) ∷ rest)))
]

module _ (murmur : List ℕ → ℕ → Hash128) (str : List ℕ) (len width : ℕ) where
  -- With room for the rounds that are left, they go through, and print a text from which the string
  -- is read back.
  print_bins_lem :
      (rounds d seed : ℕ) (key : List ℕ)
      → length key + 9 * rounds + length str < len
      → (body : List ℕ) × (print_bins murmur str len width rounds d seed key
          ≡ record { ok = true; path_key = key ++ body })
        × (after_dots rounds body ≡ str)
  unfolding print_bins after_dots
  print_bins_lem zero d seed key room =
      (str, rw (take_all (len - length key - 1) str (omega arith)) refl, refl)
  print_bins_lem (suc rounds) d seed key room =
      let short : length bin ≤ 9 = length-hex_onto 7 b (b'.' ∷ []) in
      let whole = take_all (len - length key - 1) bin (omega arith) in
      let fits : leb len (length key + length bin) ≡ false = ground arith in
      let (body, runs, back) =
        print_bins_lem rounds (d + 1) seed' (key ++ bin) (omega (arith, length-append key bin)) in
      (
        bin ++ body,
        rw (fits, whole)
            (runs ∙ ap (λ t. record { ok = true; path_key = t }) (append_assoc key bin body)),
        ap (after_dots (suc rounds)) (hex_onto-++ 7 b (b'.' ∷ []) body)
            ∙ after_dots-hex_onto 7 rounds b (b'.' ∷ body)
            ∙ back,
      )
    where
      seed' : ℕ
      seed' = (seed + seed_at (get_elem? seeds (d % 10))) % 2 ^ 32

      b : ℕ
      b = bin_of (murmur (padded str) seed') width

      bin : List ℕ
      bin = hex_onto 7 b (b'.' ∷ [])

-- For a string that is not empty, a number of bins that is not 0, and a buffer with room for nine
-- bytes for each level, the string and the NUL: the call returns 0, and the string is what stands
-- behind the first `depth` dots of the key.
pub gen_path_key_lem :
    (murmur : List ℕ → ℕ → Hash128) (str : List ℕ) (len depth width : ℕ)
    → (length str == 0) ≡ false
    → (width == 0) ≡ false
    → 9 * depth + length str < len
    → (key : List ℕ) × (gen_path_key murmur (some str) true len depth width
        ≡ returned record { ok = true; path_key = key })
      × (after_dots depth key ≡ str)
unfolding gen_path_key
gen_path_key_lem murmur str len depth width filled bins room =
    let (key, runs, back) = print_bins_lem murmur str len width depth 0 57 [] (omega arith) in
    let sized : (len == 0) ≡ false = ground arith in
    (key, rw (sized, filled, bins) (ap returned runs), back)
