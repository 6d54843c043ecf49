-- ===== src/Client/Store/Writes.antt =====
-- What `dyad_cons_store` writes when no call of `write (2)` fails, and when one does.
use dyad.Prelude.{
  take-more, ℕ, zero, suc, ◌+◌, ◌-◌, ◌≤◌, ◌<◌, ◌≡◌, refl, ap₂, inl, inr, true, false, List, [],
  Option, none, some, leb, ltb, ◌==◌, length, take, take_all, min, arith, Bool-cases,
}
use dyad.Prelude.Run.{returned, fault}
use dyad.Core.Codes.{Rc, rc_ok}
use dyad.Client.Store.{granularity, Writer, stored, store_chunks, of_write, dyad_cons_store}

-- Every call writes at least one byte, and no more than it is asked to.
abbrev pub Steady : Writer → Type 0
Steady write = (call n : ℕ) → 0 < n → (k : ℕ) × (write call n ≡ some k) × (0 < k) × (k ≤ n)

store_chunks_lem :
    (fuel : ℕ) (write : Writer) (call : ℕ) (file_data : List ℕ) (written : ℕ)
    → Steady write
    → written ≤ length file_data
    → length file_data ≤ fuel + written
    → store_chunks fuel write call file_data written (take written file_data)
      ≡ stored file_data (length file_data)
unfolding store_chunks
store_chunks_lem zero write call file_data written steady within enough =
    let all : written ≡ length file_data = omega arith in
    let at_end : leb (length file_data) written ≡ true = ground arith in
    rw (at_end, store_chunks) (ap₂ stored (take_all written file_data (omega arith)) all)
store_chunks_lem (suc fuel) write call file_data written steady within enough =
    elim (Bool-cases (leb (length file_data) written)) [
      | inl e ↦
          rw (e, store_chunks)
            (ap₂ stored (take_all written file_data (ground arith)) (ground arith))
      | inr e ↦
          let (k, at, pos, most) =
            steady call (min (length file_data - written) granularity) (ground arith) in
          let some_bytes : (k == 0) ≡ false = ground arith in
          rw (e, at, some_bytes, take-more file_data written k, store_chunks)
            (store_chunks_lem fuel write (call + 1) file_data (written + k) steady (omega arith)
              (omega arith))
    ]

of_write-ok :
    (file_data : List ℕ) (answer : Option ℕ)
    → (of_write file_data answer).1 ≡ rc_ok
    → (of_write file_data answer).0 ≡ file_data
of_write-ok file_data none h = cc
of_write-ok file_data (some k) h = elim (Bool-cases (k == length file_data)) [
  | inl e ↦ take_all k file_data (ground arith)
  | inr e ↦ absurd (ground arith)
]

-- When the directory is made and every call of `write (2)` writes at least a byte, the loop ends
-- within a round for each byte: the code is DYAD_RC_OK only if the file has exactly the data, and for
-- data of a chunk and more it is DYAD_RC_OK, however short the single writes are.
pub dyad_cons_store_lem :
    (fuel : ℕ) (write : Writer) (file_data : List ℕ)
    → Steady write
    → length file_data ≤ fuel
    → (r : List ℕ × Rc) × (dyad_cons_store fuel true write file_data ≡ some (returned r))
      × (r.1 ≡ rc_ok → r.0 ≡ file_data)
      × (granularity ≤ length file_data → r.1 ≡ rc_ok)
unfolding dyad_cons_store
dyad_cons_store_lem fuel write file_data steady enough =
    elim (Bool-cases (ltb (length file_data) granularity)) [
      | inl e ↦ (
        of_write file_data (write 0 (length file_data)),
        rw (e, dyad_cons_store),
        of_write-ok file_data (write 0 (length file_data)),
        (λ h. absurd (ground arith)),
      )
      | inr e ↦
          let run = store_chunks_lem fuel write 0 file_data 0 steady (omega arith) (omega arith) in
          let whole : (length file_data == length file_data) ≡ true = ground arith in
          ((file_data, rc_ok), rw (e, dyad_cons_store) (rw (run, whole)), (λ _. refl), (λ _. refl))
    ]

-- Data of a chunk and more, and a first call of `write (2)` that writes nothing: the answer is
-- DYAD_RC_OK with nothing stored. If the call fails instead, the next one reads in front of the
-- buffer.
dyad_cons_store_first_write :
    (fuel : ℕ) (write : Writer) (file_data : List ℕ)
    → 0 < fuel
    → granularity ≤ length file_data
    → (write 0 granularity ≡ some 0
        → dyad_cons_store fuel true write file_data ≡ some (returned ([], rc_ok)))
      × (write 0 granularity ≡ none → dyad_cons_store fuel true write file_data ≡ some fault)
unfolding dyad_cons_store store_chunks
dyad_cons_store_first_write zero write file_data pos large = absurd (omega arith)
dyad_cons_store_first_write (suc fuel) write file_data pos large =
    let big : ltb (length file_data) granularity ≡ false = ground arith in
    let more : leb (length file_data) 0 ≡ false = ground arith in
    let size : min (length file_data - 0) granularity ≡ granularity = omega arith in
    ((λ h. rw (big, more, size, h, store_chunks)), (λ h. rw (big, more, size, h, store_chunks)))
