-- ===== src/Utils/Directories.antt =====
-- Making a directory and the directories above it: `mkpath` and `mkdir_as_needed` of
-- dyad/utils/utils.c, on a file system that other processes use at the same time. A path is its
-- names, the last one first; [] is the root or the working directory, which is there always. Links
-- and the names "." and ".." are left out, and so is `sync_containing_dir`, whose answer is not looked
-- at.
pub mod Made
pub mod Umask
mod Tests
use Prim.Native.Nat.{bit_and}
use mathlib.Core.Logic.{ite}
use mathlib.Core.List.{List-discrete}
use native.Mathlib.Decide.{ℕ_discrete}
use dyad.Prelude.{
  ℕ, ◌-◌, ◌%◌, Bool, true, false, not, ◌||◌, List, [], ◌∷◌, Option, none, some, ◌==◌, if◌then◌else◌,
}

abbrev pub Names : Type 0
Names = List (List ℕ)

-- What `stat` says: a directory with its permission bits, or something else.
pub data Node : Type 0 where
  directory : ℕ → Node
  other : Node

abbrev pub Tree : Type 0
Tree = Names → Option Node

pub record World : Type 0 where
  pub umask : ℕ
  pub tree : Tree

-- The values of `mkdir_as_needed`: -3, -2, 0, 1, 5, -4 and -1.
pub data Answer : Type 0 where
  unnamed : Answer
  not_directory : Answer
  created : Answer
  existing : Answer
  other_mode : Answer
  not_directory_after : Answer
  failed : Answer

abbrev pub names_discrete : Discrete Names
names_discrete = List-discrete (List-discrete ℕ_discrete)

unfoldable pub placed : Names → Node → Tree → Tree
placed p node t q = ite (names_discrete q p) (some node) (t q)

abbrev pub is_there : Option Node → Bool
is_there none = false
is_there (some node) = true

abbrev pub is_directory : Option Node → Bool
is_directory none = false
is_directory (some (directory mode)) = true
is_directory (some other) = false

-- `m & ~umask`, of the permission bits and the sticky bit.
abbrev pub masked : ℕ → ℕ → ℕ
masked m umask = m % 1024 - bit_and (m % 1024) umask

-- The compared bits are those of S_IRWXU | S_IRWXG | S_IRWXO.
abbrev pub on_existing : ℕ → Answer → Node → Answer
on_existing m wrong (directory mode) = if mode % 512 == m % 512 then existing else other_mode
on_existing m wrong other = wrong

-- Behind the call of `mkpath`, which runs with a umask of 0.
abbrev pub after_mkpath : Names → ℕ → ℕ → World × Bool → World × Answer
after_mkpath path m old_mask (w, true) = (record w { umask = old_mask }, created)
after_mkpath path m old_mask (w, false) =
    (w, elim (w.tree path) [ none ↦ failed | some node ↦ on_existing m not_directory_after node ])

-- `others` is what other processes do to the tree until a `mkdir` takes place, and `denied` the
-- paths that may not be made.
module _ (others : Tree → Tree) (denied : Names → Bool) where
  -- `mkdir (2)`: `true` is 0, and `false` is -1.
  unfoldable pub mkdir : Names → ℕ → World → World × Bool
  mkdir [] m w = (record w { tree = others w.tree }, false)
  mkdir (name ∷ above) m w =
      let t = others w.tree in
      if is_there (t (name ∷ above)) || not (is_directory (t above)) || denied (name ∷ above)
      then (record w { tree = t }, false)
      else (record w { tree = placed (name ∷ above) (directory (masked m w.umask)) t }, true)

  -- `true` is the value 0. What the call for the directory above answers is not looked at.
  unfoldable pub mkpath : Names → ℕ → World → World × Bool
  mkpath [] m w = (w, true)
  mkpath (name ∷ above) m w =
      let made = mkpath above m w in
      if is_there (w.tree (name ∷ above)) then (w, true) else mkdir (name ∷ above) m made.0

  -- `none` is NULL or the empty text.
  unfoldable pub mkdir_as_needed : Option Names → ℕ → World → World × Answer
  mkdir_as_needed none m w = (w, unnamed)
  mkdir_as_needed (some path) m w = elim (w.tree path) [
    | some node ↦ (w, on_existing m not_directory node)
    | none ↦ after_mkpath path m w.umask (mkpath path m (record w { umask = 0 }))
  ]
