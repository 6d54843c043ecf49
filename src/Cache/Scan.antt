-- ===== src/Cache/Scan.antt =====
-- `dyad_cache_scan_dir` collects the candidates of the directory in order, within its array.
use dyad.Prelude.{
  ℕ, ◌+◌, ◌*◌, ◌^◌, ◌≤◌, ◌<◌, ◌≡◌, refl, sym, ap₂, ◌∙◌, ◌⊎◌, inl, inr, false, not, ◌&&◌, List, [],
  ◌∷◌, ◌++◌, Option, none, some, arith, leb, ◌==◌, if◌then◌else◌, length, length-append, Bool-cases,
  Option-cases,
}
use mathlib.Core.List.{append_assoc, append-nil}
use dyad.Prelude.Run.{returned}
use dyad.Core.Codes.{Rc, rc_ok, rc_sysfail, rc_badfio}
use dyad.Cache.{
  Entry, Dir, KeyOf, Scanned, candidate, grown, nothing, scan_names, dyad_cache_scan_dir, u64,
}
use dyad.Cache.Evict.{size_sum}

module _ (key : KeyOf) (managed_path : List ℕ) (dir : Dir) where
  -- The candidates among the names, in order.
  abbrev pub candidates : List (List ℕ) → List Entry
  candidates [] = []
  candidates (name ∷ names) = elim (candidate key managed_path dir name) [
    | none ↦ candidates names
    | some e ↦ e ∷ candidates names
  ]

  candidates-none :
      (name : List ℕ) (names : List (List ℕ))
      → candidate key managed_path dir name ≡ none
      → candidates (name ∷ names) ≡ candidates names
  candidates-none name names e = rw (e, candidates)

  candidates-some :
      (name : List ℕ) (names : List (List ℕ)) (x : Entry)
      → candidate key managed_path dir name ≡ some x
      → candidates (name ∷ names) ≡ x ∷ candidates names
  candidates-some name names x e = rw (e, candidates)

  -- What the scan of the names gives behind `s`, or a `realloc` failed.
  abbrev Collects : List (List ℕ) → Scanned → Option Scanned → Type 0
  Collects names s r =
      ((r ≡ none) × ((c : ℕ) × (dir.growth c ≡ false)))
      ⊎ (r
          ≡ some (record {
            entries = s.entries ++ candidates names;
            total_size = u64 (s.total_size + size_sum (candidates names));
          }))

  abbrev scanned : List Entry → ℕ → Option Scanned
  scanned es n = some (record { entries = es; total_size = n })

  abbrev added : Entry → Scanned → Scanned
  added e s = record { entries = s.entries ++ e ∷ []; total_size = u64 (s.total_size + e.size) }

  Collects-some :
      (e : Entry) (names : List (List ℕ)) (name : List ℕ) (s : Scanned) (r : Option Scanned)
      → candidate key managed_path dir name ≡ some e
      → Collects names (added e s) r
      → Collects (name ∷ names) s r
  Collects-some e names name s r at (inl h) = inl h
  Collects-some e names name s r at (inr h) = inr (
      h
      ∙ rw (candidates-some name names e at)
          (ap₂ scanned (append_assoc s.entries (e ∷ []) (candidates names)) (omega arith)))

  scan_names_lem :
      (capacity : ℕ) (names : List (List ℕ)) (s : Scanned)
      → length s.entries ≤ capacity
      → capacity ≤ 2 * length s.entries + 16
      → 2 * (length s.entries + length names) + 16 < 2 ^ 64
      → s.total_size < 2 ^ 64
      → (r : Option Scanned) × (scan_names key managed_path dir capacity names s ≡ returned r)
        × Collects names s r
  unfolding scan_names
  scan_names_lem capacity [] s room bound small fits =
      (some s, refl, inr (ap₂ scanned (sym (append-nil s.entries)) (omega arith)))
  scan_names_lem capacity (name ∷ names) s room bound small fits =
      elim (Option-cases (candidate key managed_path dir name)) [
        | inl e ↦
            rw (e, candidates-none name names e, scan_names)
              (scan_names_lem capacity names s room bound (omega arith) fits)
        | inr (x, e) ↦
            elim (Bool-cases (length s.entries == capacity && not (dir.growth (grown capacity)))) [
              | inl refuses ↦
                  (none, rw (e, refuses, scan_names), inl (refl, (grown capacity, ground arith)))
              | inr grows ↦
                  let new_room =
                    if length s.entries == capacity then grown capacity else capacity in
                  let enough : leb new_room (length s.entries) ≡ false = ground arith in
                  let (r, runs, collects) =
                    scan_names_lem new_room names (added x s)
                      (ground (arith, length-append s.entries (x ∷ [])))
                      (ground (arith, length-append s.entries (x ∷ [])))
                      (omega (arith, length-append s.entries (x ∷ []))) (omega arith) in
                  (
                    r,
                    rw (e, grows, enough, scan_names) runs,
                    Collects-some x names name s r e collects,
                  )
            ]
      ]

  -- The scan of a directory (fewer than 2 ^ 62 names) writes within its array and answers: it cannot
  -- open the directory (DYAD_RC_BADFIO), a `realloc` failed (DYAD_RC_SYSFAIL), or it has all the
  -- candidates of the directory in order, with the sum of their sizes in 64 bits.
  pub dyad_cache_scan_dir_lem :
      length dir.names < 2 ^ 62
      → (r : Scanned × Rc) × (dyad_cache_scan_dir key managed_path dir ≡ returned r)
        × (((r ≡ (nothing, rc_badfio)) × (dir.opens ≡ false))
            ⊎ ((r ≡ (nothing, rc_sysfail)) × ((c : ℕ) × (dir.growth c ≡ false)))
            ⊎ (r ≡ (
              record {
                entries = candidates dir.names;
                total_size = u64 (size_sum (candidates dir.names));
              },
              rc_ok,
            )))
  unfolding dyad_cache_scan_dir
  dyad_cache_scan_dir_lem few = elim (Bool-cases dir.opens) [
    | inr e ↦ ((nothing, rc_badfio), rw e, inl (refl, e))
    | inl e ↦
        let (r, runs, collects) =
          scan_names_lem 0 dir.names nothing (omega arith) (omega arith) (omega arith)
            (omega arith) in
        elim collects [
          | inl (stopped, why) ↦
              ((nothing, rc_sysfail), rw (e, runs, stopped), inr (inl (refl, why)))
          | inr all ↦ (
            (
              record {
                entries = candidates dir.names;
                total_size = u64 (size_sum (candidates dir.names));
              },
              rc_ok,
            ),
            ground (arith, runs, all),
            inr (inr refl),
          )
        ]
  ]
