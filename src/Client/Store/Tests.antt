-- ===== src/Client/Store/Tests.antt =====
-- Three bytes are stored by one call; a file of a chunk needs the loop.
use dyad.Prelude.{
  true, ℕ, ◌≤◌, ◌≡◌, refl, List, [], ◌∷◌, some, arith, length, replicate, length-replicate,
}
use dyad.Prelude.Run.{returned}
use dyad.Core.Codes.{Rc, rc_ok}
use dyad.Client.Store.{granularity, Writer, store_chunks, dyad_cons_store}
use dyad.Client.Store.Writes.{Steady, dyad_cons_store_lem}

abbrev three : List ℕ
three = 1 ∷ 2 ∷ 3 ∷ []

abbrev writes_all : Writer
writes_all call n = some n

writes_all-Steady : Steady writes_all
writes_all-Steady call n pos = (n, refl, pos, omega arith)

stores : dyad_cons_store 3 true writes_all three ≡ some (returned (three, rc_ok))
unfolding dyad_cons_store store_chunks
stores = refl

dyad_cons_store_lem_example :
    (r : List ℕ × Rc) × (dyad_cons_store 3 true writes_all three ≡ some (returned r))
    × (r.1 ≡ rc_ok → r.0 ≡ three)
    × (granularity ≤ 3 → r.1 ≡ rc_ok)
dyad_cons_store_lem_example = dyad_cons_store_lem 3 writes_all three writes_all-Steady (omega arith)

of_length : (n : ℕ) → (xs : List ℕ) × (length xs ≡ n)
of_length n = (replicate n 0, length-replicate {A = ℕ} n 0)

abbrev large : List ℕ
large = (of_length granularity).0

large-length : granularity ≤ length large
large-length = omega (arith, (of_length granularity).1)

abbrev writes_nothing : Writer
writes_nothing call n = some 0
