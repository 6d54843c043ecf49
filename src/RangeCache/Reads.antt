-- ===== src/RangeCache/Reads.antt =====
-- A range of right bytes that is read in full is the origin's range.
use native.Mathlib.Decide.{dec_lt}
use dyad.Prelude.{
  ℕ, ◌+◌, ◌≤◌, ◌<◌, ◌≡◌, refl, sym, ◌∙◌, List, arith, length, drop, length-take, get_elem?_ext,
  get_elem?_beyond,
}
use dyad.RangeCache.{Files, content, read_at}
use dyad.RangeCache.Slots.{get_elem?-read_at}
use dyad.RangeCache.Sound.{Present}

module _ (o : List ℕ) (offset len : ℕ) where
  -- Right bytes read in full are the origin's range.
  pub read_at-Present :
      (fs : Files)
      → ((i : ℕ) → offset ≤ i → i < offset + len → Present o fs i)
      → length (read_at offset len (content fs.local_file)) ≡ len
      → read_at offset len (content fs.local_file) ≡ read_at offset len o
  read_at-Present fs present full =
      get_elem?_ext (read_at offset len (content fs.local_file)) (read_at offset len o) (λ i.
        elim (dec_lt i len) [
          | yes below ↦
              let there = present (offset + i) (omega arith) (omega arith) in
              get_elem?-read_at offset len (content fs.local_file) (offset + i) i refl below
              ∙ there
              ∙ sym (get_elem?-read_at offset len o (offset + i) i refl below)
          | no beyond ↦
              get_elem?_beyond (read_at offset len (content fs.local_file)) i (omega arith)
              ∙ sym (
                  get_elem?_beyond (read_at offset len o) i
                    (omega (arith, length-take len (drop offset o))))
        ])
