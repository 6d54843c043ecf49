-- ===== src/Client/PathKey/Tests.antt =====
-- Keys of the path "a/b" over two levels, with a hash that is the seed.
use dyad.Prelude.{ℕ, ◌≡◌, refl, true, List, [], ◌∷◌, some, arith}
use dyad.Prelude.Run.{returned}
use dyad.Utils.Paths.{Hash128}
use dyad.Client.PathKey.{hex_onto, print_bins, gen_path_key}
use dyad.Client.PathKey.Recover.{after_dots, gen_path_key_lem}

abbrev murmur : List ℕ → ℕ → Hash128
murmur text seed = record { w0 = seed; w1 = 0; w2 = 0; w3 = 0 }

abbrev path : List ℕ
path = b'a' ∷ b'/' ∷ b'b' ∷ []

-- The seeds are 104734 and 209415: the bins of 1024 are 286 and 519.
whole_key :
    gen_path_key murmur (some path) true 100 2 1024
    ≡ returned record {
      ok = true;
      path_key = b'1' ∷ b'1' ∷ b'e' ∷ b'.' ∷ b'2' ∷ b'0' ∷ b'7' ∷ b'.' ∷ b'a' ∷ b'/' ∷ b'b' ∷ [];
    }
unfolding hex_onto print_bins gen_path_key
whole_key = refl

-- In a buffer of ten bytes the key is cut, and the call still returns 0.
cut_key :
    gen_path_key murmur (some path) true 10 2 1024
    ≡ returned record {
      ok = true;
      path_key = b'1' ∷ b'1' ∷ b'e' ∷ b'.' ∷ b'2' ∷ b'0' ∷ b'7' ∷ b'.' ∷ b'a' ∷ [];
    }
unfolding hex_onto print_bins gen_path_key
cut_key = refl

gen_path_key_lem_example :
    (key : List ℕ) × (gen_path_key murmur (some path) true 100 2 1024
      ≡ returned record { ok = true; path_key = key })
    × (after_dots 2 key ≡ path)
gen_path_key_lem_example = gen_path_key_lem murmur path 100 2 1024 refl refl (omega arith)
