-- ===== src/Utils/Strings/Compare.antt =====
-- What `strncmp` and the test for a trailing delimiter decide.
use mathlib.Core.List.{append-nil}
use dyad.Prelude.{
  ℕ, zero, suc, ◌+◌, ◌-◌, ◌≤◌, ◌≡◌, ◌≢◌, refl, sym, ap, ◌∙◌, true, List, [], ◌∷◌, ◌++◌, arith,
  length, take, drop, replicate, length-append, length-drop, take-append-drop, drop-append_self,
  take_all,
}
use dyad.Utils.Strings.{strncmp_eq, ends_with, c_text}

-- No NUL among the bytes.
abbrev pub NoNul : List ℕ → Type 0
NoNul [] = Unit
NoNul (x ∷ xs) = (x ≢ 0) × NoNul xs

pub strncmp_eq-take : (a b : List ℕ) (n : ℕ) → strncmp_eq a b n ≡ true → take n a ≡ take n b
unfolding strncmp_eq
strncmp_eq-take a b zero h = refl
strncmp_eq-take [] [] (suc n) h = refl
strncmp_eq-take [] (y ∷ b) (suc n) h = cc
strncmp_eq-take (x ∷ a) [] (suc n) h = cc
strncmp_eq-take (x ∷ a) (y ∷ b) (suc n) h = ground (arith, strncmp_eq-take a b n)

pub strncmp_eq-append : (a c : List ℕ) → strncmp_eq a (a ++ c) (length a) ≡ true
unfolding strncmp_eq
strncmp_eq-append [] c = refl
strncmp_eq-append (x ∷ a) c = ground (arith, strncmp_eq-append a c)

pub append-strncmp_eq : (a c : List ℕ) → strncmp_eq (a ++ c) a (length a) ≡ true
unfolding strncmp_eq
append-strncmp_eq [] [] = refl
append-strncmp_eq [] (c ∷ cs) = refl
append-strncmp_eq (x ∷ a) c = ground (arith, append-strncmp_eq a c)

take-drop_split : (s : List ℕ) (n : ℕ) → n ≤ length s → length (drop (length s - n) s) ≡ n
take-drop_split s n h = omega (arith, length-drop (length s - n) s)

-- A text that ends with the delimiter is a text followed by the delimiter.
pub ends_with_sound : (s d : List ℕ) → ends_with s d ≡ true → take (length s - length d) s ++ d ≡ s
unfolding ends_with
ends_with_sound s d h =
    ap (λ t. take (length s - length d) s ++ t) tail_eq ∙ take-append-drop (length s - length d) s
  where
    tail : List ℕ
    tail = drop (length s - length d) s

    fits : length d ≤ length s
    fits = ground arith

    cut_eq : take (length d) tail ≡ take (length d) d
    cut_eq = strncmp_eq-take tail d (length d) (ground arith)

    tail_eq : d ≡ tail
    tail_eq =
        sym (take_all (length d) d (omega arith))
        ∙ sym cut_eq
        ∙ take_all (length d) tail (omega (arith, take-drop_split s (length d) fits))

pub ends_with-append : (b d : List ℕ) → ends_with (b ++ d) d ≡ true
unfolding ends_with
ends_with-append b d =
    let len : length (b ++ d) ≡ length b + length d = length-append b d in
    let cut : drop (length (b ++ d) - length d) (b ++ d) ≡ d =
      drop-append_self b d (length (b ++ d) - length d) (omega arith) in
    let same : strncmp_eq d d (length d) ≡ true = rw append-nil at (strncmp_eq-append d []) in
    rw cut (ground arith)

pub c_text-append : (xs : List ℕ) (k : ℕ) → NoNul xs → c_text (xs ++ replicate k 0) ≡ xs
unfolding c_text
c_text-append [] zero h = refl
c_text-append [] (suc k) h = refl
c_text-append (x ∷ xs) k h = ground (arith, c_text-append xs k h.1)

pub NoNul-append : (xs ys : List ℕ) → NoNul xs → NoNul ys → NoNul (xs ++ ys)
NoNul-append [] ys h k = k
NoNul-append (x ∷ xs) ys h k = (h.0, NoNul-append xs ys h.1 k)

pub NoNul-take : (n : ℕ) (xs : List ℕ) → NoNul xs → NoNul (take n xs)
NoNul-take zero xs h = tt
NoNul-take (suc n) [] h = tt
NoNul-take (suc n) (x ∷ xs) h = (h.0, NoNul-take n xs h.1)
