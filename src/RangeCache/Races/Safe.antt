-- ===== src/RangeCache/Races/Safe.antt =====
-- No order of the callers' parts breaks the invariant or leaves a bitmap buffer.
use dyad.Prelude.{
  ℕ, ◌+◌, ◌*◌, ◌^◌, ◌≤◌, ◌<◌, ◌≡◌, refl, sym, subst, ◌∙◌, inl, inr, List, some, length, get_elem?,
  set, get_elem?-set_self, get_elem?-set_ne, Bool-cases,
}
use native.Mathlib.Decide.{ℕ_discrete}
use dyad.Prelude.Run.{returned}
use dyad.Core.Codes.{rc_ok, is_error, ok_of_not_error}
use dyad.RangeCache.{Files, Answers, Prepared, refused, cached, missing, block_size, fetch_span}
use dyad.RangeCache.Sound.{IsSound, Keeps, SpanPresent}
use dyad.RangeCache.Fetch.{fetch_span-Present, fetch_span-IsSound}
use dyad.RangeCache.Mark.{mark_span-IsSound}
use dyad.RangeCache.Slots.{lt_of_entry}
use dyad.RangeCache.Search.{Finds, probe_lem, prepare-Finds}
use dyad.RangeCache.Races.{
  Phase, starting, checking, fetching, marking, finished, Caller, next_part, after_check, World,
  Moves, part, Reaches, none_yet, and_then,
}

settled_entry :
    (cs : List Caller) (i j : ℕ) (c new d : Caller)
    → get_elem? cs i ≡ some c
    → i ≡ j
    → get_elem? (set cs i new) j ≡ some d
    → new ≡ d
settled_entry cs i j c new d at e found =
    let own = get_elem?-set_self cs i new (lt_of_entry cs i at) in cc

module _ (o : List ℕ) (small : length o + block_size < 2 ^ 64) where
  -- What holds of a caller between two parts.
  abbrev Settled : ℕ → ℕ → Phase → Files → Type 0
  Settled block_start block_end starting fs = Unit {0}
  Settled block_start block_end checking fs = Unit {0}
  Settled block_start block_end (fetching n) fs = n ≡ length o
  Settled block_start block_end (marking n) fs =
      (n ≡ length o) × SpanPresent o block_start block_end fs
  Settled block_start block_end (finished rc) fs =
      rc ≡ rc_ok → SpanPresent o block_start block_end fs

  -- The request of a caller ends within the origin, and its answer is right.
  pub record IsSettled (c : Caller) (fs : Files) : Type 0 where
    pub inside : c.block_end * block_size < length o
    pub ordered : c.block_start ≤ c.block_end
    pub settled : Settled c.block_start c.block_end c.phase fs

  pub record IsSafe (w : World) : Type 0 where
    pub files : IsSound o w.files
    pub callers : (i : ℕ) (c : Caller) → get_elem? w.callers i ≡ some c → IsSettled c w.files

  -- What a caller found stays true while the files change.
  Settled-Keeps :
      (block_start block_end : ℕ) (phase : Phase) (fs fs' : Files)
      → Keeps o fs fs'
      → Settled block_start block_end phase fs
      → Settled block_start block_end phase fs'
  Settled-Keeps block_start block_end starting fs fs' keeps h = tt
  Settled-Keeps block_start block_end checking fs fs' keeps h = tt
  Settled-Keeps block_start block_end (fetching n) fs fs' keeps h = h
  Settled-Keeps block_start block_end (marking n) fs fs' keeps h =
      (h.0, λ i p q below. keeps i below (h.1 i p q below))
  Settled-Keeps block_start block_end (finished rc) fs fs' keeps h =
      λ ok i p q below. keeps i below (h ok i p q below)

  module _ (block_start block_end : ℕ) (inside : block_end * block_size < length o)
      (ordered : block_start ≤ block_end) where
    after_check-Settled :
        (fs : Files) (p : Prepared)
        → Finds o block_start block_end small inside ordered fs p
        → IsSound o (after_check p).0
          × Keeps o fs (after_check p).0
          × Settled block_start block_end (after_check p).1 (after_check p).0
    after_check-Settled fs (refused fs' rc) f = (f.0, f.1, λ ok. absurd (f.2 ok))
    after_check-Settled fs (cached fs') f = (f.0, f.1, λ _. f.2)
    after_check-Settled fs (missing fs' n) f = (f.0, f.1, f.2)

    -- One part on sound files: it returns, and its caller and the files are as they should be.
    next_part-Settled :
        (os : Answers) (phase : Phase) (fs : Files)
        → IsSound o fs
        → Settled block_start block_end phase fs
        → (r : Files × Phase) × (next_part os block_start block_end phase fs ≡ returned r)
          × IsSound o r.0
          × Keeps o fs r.0
          × Settled block_start block_end r.1 r.0
    unfolding next_part
    next_part-Settled os starting fs s h =
        let (hit, runs, present) = probe_lem o block_start block_end small inside ordered os fs s in
        elim (Bool-cases hit) [
          | inl e ↦ ((fs, finished rc_ok), rw (runs, e), s, (λ i below x. x), λ _. present e)
          | inr e ↦ ((fs, checking), rw (runs, e), s, (λ i below x. x), tt)
        ]
    next_part-Settled os checking fs s h =
        let (p, runs, finds) = prepare-Finds o block_start block_end small inside ordered os fs s in
        let (sound, keeps, after) = after_check-Settled fs p finds in
        (after_check p, rw runs, sound, keeps, after)
    next_part-Settled os (fetching n) fs s h =
        let (keeps, _, _, present) =
          fetch_span-Present o os block_start block_end fs s.origin small inside ordered in
        let fetched = fetch_span os block_start block_end (length o) fs in
        let sound = fetch_span-IsSound o os block_start block_end fs s small inside ordered in
        rw h (elim (Bool-cases (is_error fetched.1)) [
          | inl e ↦ rw e ((fetched.0, finished fetched.1), refl, sound, keeps, present)
          | inr e ↦ rw e (
            (fetched.0, marking (length o)),
            refl,
            sound,
            keeps,
            (refl, present (ok_of_not_error fetched.1 e)),
          )
        ])
    next_part-Settled os (marking n) fs s h =
        let (r, runs, sound, same) =
          mark_span-IsSound o os block_start block_end fs s small inside ordered h.1 in
        (
          (r.0, finished r.1),
          rw (h.0, runs),
          sound,
          (λ i below x. rw same x),
          λ _ i p q below. rw same (h.1 i p q below),
        )
    next_part-Settled os (finished rc) fs s h = ((fs, finished rc), refl, s, (λ i below x. x), h)

  IsSettled-next_part :
      (c : Caller) (os : Answers) (fs fs' : Files) (phase : Phase)
      → IsSound o fs
      → IsSettled c fs
      → next_part os c.block_start c.block_end c.phase fs ≡ returned (fs', phase)
      → IsSound o fs' × Keeps o fs fs' × IsSettled (record c { phase = phase }) fs'
  IsSettled-next_part c os fs fs' phase s h runs =
      let (r, returns, s', k', f') =
        next_part-Settled c.block_start c.block_end h.inside h.ordered os c.phase fs s h.settled in
      let same : r ≡ (fs', phase) = cc in
      let (sound, keeps, settled) : IsSound o fs'
          × Keeps o fs fs'
          × Settled c.block_start c.block_end phase fs' =
        subst (λ r. IsSound o r.0 × Keeps o fs r.0 × Settled c.block_start c.block_end r.1 r.0) same
          (s', k', f') in
      (sound, keeps, record { inside = h.inside; ordered = h.ordered; settled = settled })

  Moves-IsSafe : {v w : World} → Moves v w → IsSafe v → IsSafe w
  Moves-IsSafe (part w i c os fs phase at runs) h =
      let (sound, keeps, settled) =
        IsSettled-next_part c os w.files fs phase h.files (h.callers i c at) runs in
      record {
        files = sound;
        callers = λ j d found. elim (ℕ_discrete i j) [
          | yes e ↦
              let same : record c { phase = phase } ≡ d =
                settled_entry w.callers i j c (record c { phase = phase }) d at e found in
              subst (λ x. IsSettled x fs) same settled
          | no ne ↦
              let old =
                h.callers j d
                  (sym (get_elem?-set_ne w.callers (record c { phase = phase }) ne) ∙ found) in
              record {
                inside = old.inside;
                ordered = old.ordered;
                settled =
                    Settled-Keeps d.block_start d.block_end d.phase w.files fs keeps old.settled;
              }
        ];
      }

  Reaches-IsSafe : {v w : World} → Reaches v w → IsSafe v → IsSafe w
  Reaches-IsSafe (none_yet v) h = h
  Reaches-IsSafe (and_then r m) h = Moves-IsSafe m (Reaches-IsSafe r h)

  -- From sound files and callers that start requests of blocks of the origin (whose size, with one
  -- block, fits 64 bits), after any parts of the callers in any order and with any answers of the
  -- system calls: the files are sound, a caller that answered DYAD_RC_OK has its whole span in the
  -- local file, and the next part of any caller returns, with no access outside a bitmap buffer.
  pub Reaches-safe :
      (v w : World)
      → IsSafe v
      → Reaches v w
      → IsSound o w.files
        × ((i : ℕ) (c : Caller)
            → get_elem? w.callers i ≡ some c
            → (c.phase ≡ finished rc_ok → SpanPresent o c.block_start c.block_end w.files)
              × ((os : Answers)
                  → (r : Files × Phase) × (next_part os c.block_start c.block_end c.phase w.files
                      ≡ returned r)))
  Reaches-safe v w h reach =
      let safe = Reaches-IsSafe reach h in
      (
        safe.files,
        λ i c at.
            let now = safe.callers i c at in
            (
              (λ e. subst (λ p. Settled c.block_start c.block_end p w.files) e now.settled refl),
              λ os.
                  let (r, runs, _, _, _) =
                    next_part-Settled c.block_start c.block_end now.inside now.ordered os c.phase
                      w.files safe.files now.settled in
                  (r, runs),
            ),
      )
