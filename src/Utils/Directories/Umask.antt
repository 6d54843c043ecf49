-- ===== src/Utils/Directories/Umask.antt =====
-- The umask of the process after `mkdir_as_needed`, whoever else changes the tree.
use dyad.Prelude.{
  ℕ, ◌%◌, ◌==◌, ◌≡◌, ◌≢◌, refl, ◌∙◌, ◌⊎◌, inl, inr, Bool, true, false, List, [], ◌∷◌, Option, some,
  none, if-lem, arith,
}
use dyad.Utils.Directories.{
  Names, Node, other, on_existing, failed, not_directory_after, directory, Tree, World, created,
  existing, mkdir, mkpath, after_mkpath, mkdir_as_needed,
}

on_existing≢created : (m : ℕ) (node : Node) → on_existing m not_directory_after node ≢ created
on_existing≢created m other e = cc
on_existing≢created m (directory mode) e =
    if-lem (λ a. a ≢ created) (mode % 512 == m % 512) (λ _ h. cc) (λ _ h. cc) e

failed-answer :
    (m : ℕ) (node : Option Node)
    → (elim node [ none ↦ failed | some n ↦ on_existing m not_directory_after n ]) ≢ created
failed-answer m none e = cc
failed-answer m (some n) e = on_existing≢created m n e

after_mkpath-umask :
    (p : Names) (m old_mask : ℕ) (made : World × Bool)
    → made.0.umask ≡ 0
    → (((after_mkpath p m old_mask made).1 ≡ created)
        × ((after_mkpath p m old_mask made).0.umask ≡ old_mask))
      ⊎ (((after_mkpath p m old_mask made).1 ≢ created)
          × ((after_mkpath p m old_mask made).0.umask ≡ 0))
after_mkpath-umask p m old_mask (w, true) mask = inl (refl, refl)
after_mkpath-umask p m old_mask (w, false) mask = inr (failed-answer m (w.tree p), mask)

module _ (others : Tree → Tree) (denied : Names → Bool) where
  mkdir-umask : (p : Names) (m : ℕ) (w : World) → (mkdir others denied p m w).0.umask ≡ w.umask
  unfolding mkdir
  mkdir-umask [] m w = refl
  mkdir-umask (name ∷ above) m w =
      if-lem (λ (r : World × Bool). r.0.umask ≡ w.umask) _ (λ _. refl) (λ _. refl)

  mkpath-umask : (p : Names) (m : ℕ) (w : World) → (mkpath others denied p m w).0.umask ≡ w.umask
  unfolding mkpath
  mkpath-umask [] m w = refl
  mkpath-umask (name ∷ above) m w =
      if-lem (λ (r : World × Bool). r.0.umask ≡ w.umask) _ (λ _. refl)
        (λ _.
          mkdir-umask (name ∷ above) m (mkpath others denied above m w).0 ∙ mkpath-umask above m w)

  -- A path that is not there, whatever other processes do and whatever is denied. The umask is again
  -- what it was if the answer is 0, "created"; behind every other answer the umask of the process
  -- stays 0.
  pub mkdir_as_needed-umask :
      (p : Names) (m : ℕ) (w : World)
      → w.tree p ≡ none
      → (((mkdir_as_needed others denied (some p) m w).1 ≡ created)
          × ((mkdir_as_needed others denied (some p) m w).0.umask ≡ w.umask))
        ⊎ (((mkdir_as_needed others denied (some p) m w).1 ≢ created)
            × ((mkdir_as_needed others denied (some p) m w).0.umask ≡ 0))
  unfolding mkdir_as_needed
  mkdir_as_needed-umask p m w absent =
      rw (absent, mkdir_as_needed)
        (after_mkpath-umask p m w.umask (mkpath others denied p m (record w { umask = 0 }))
          (mkpath-umask p m (record w { umask = 0 })))

  -- A path that is not there, and that other processes have made a directory with the asked bits by
  -- the time of any `mkdir`. The answer is 1, "already exists", which no caller takes for a failure;
  -- the umask of the process stays 0.
  mkdir_as_needed-race :
      (name : List ℕ) (above : Names) (m : ℕ) (w : World)
      → w.tree (name ∷ above) ≡ none
      → ((t : Tree) → others t (name ∷ above) ≡ some (directory m))
      → ((mkdir_as_needed others denied (some (name ∷ above)) m w).1 ≡ existing)
        × ((mkdir_as_needed others denied (some (name ∷ above)) m w).0.umask ≡ 0)
  unfolding mkdir_as_needed mkpath mkdir
  mkdir_as_needed-race name above m w absent first =
      let w0 = record w { umask = 0 } in
      let made = (mkpath others denied above m w0).0 in
      let run : mkpath others denied (name ∷ above) m w0
          ≡ (record made { tree = others made.tree }, false) =
        rw (absent, mkpath) (rw (first made.tree, mkdir) refl) in
      let bits : (m % 512 == m % 512) ≡ true = ground arith in
      let mask = mkpath-umask above m w0 in
      rw (absent, mkdir_as_needed) (rw (run, first made.tree, bits) (refl, mask))
