-- ===== src/Utils/Directories/Made.antt =====
-- `mkdir_as_needed` makes what is missing of a path, and no more.
use Prim.Native.Nat.{bit_and, bit_and-bitwise, digits, two, ◌/◌}
use mathlib.Core.Logic.{if_pos, if_neg}
use dyad.Prelude.{
  ℕ, zero, suc, ◌+◌, ◌%◌, ◌≡◌, ◌≢◌, refl, sym, ap, ◌∙◌, ◌⊎◌, inl, inr, Bool, true, false, List, [],
  ◌∷◌, ◌++◌, none, some, length, length-append, min, arith,
}
use dyad.Utils.Directories.{
  Names, Node, directory, Tree, World, created, names_discrete, placed, masked, mkdir, mkpath,
  mkdir_as_needed,
}

abbrev pub IsDirectory : Tree → Names → Type 0
IsDirectory t p = (mode : ℕ) × (t p ≡ some (directory mode))

-- The path and every path above it is a directory.
abbrev pub Opens : Tree → Names → Type 0
Opens t [] = IsDirectory t []
Opens t (name ∷ above) = IsDirectory t (name ∷ above) × Opens t above

-- What is there of the path are directories: nothing else stands in its way.
abbrev pub Clear : Tree → Names → Type 0
Clear t [] = Opens t []
Clear t (name ∷ above) = Opens t (name ∷ above) ⊎ (t (name ∷ above) ≡ none × Clear t above)

-- The path opens in `after`, which differs from `before` in new directories on the path.
pub record Makes (m : ℕ) (p : Names) (before after : Tree) : Type 0 where
  pub opens : Opens after p
  pub only :
      (q : Names)
      → (after q ≡ before q)
        ⊎ ((before q ≡ none)
            × (after q ≡ some (directory (m % 1024)))
            × ((below : Names) × (p ≡ below ++ q)))

pub placed-same : (p : Names) (node : Node) (t : Tree) → placed p node t p ≡ some node
unfolding placed
placed-same p node t = if_pos (names_discrete p p) refl (some node) (t p)

pub placed-other :
    (p : Names) (node : Node) (t : Tree) (q : Names) → q ≢ p → placed p node t q ≡ t q
unfolding placed
placed-other p node t q n = if_neg (names_discrete q p) n (some node) (t q)

digits-zero : (n a : ℕ) → digits (λ b. zero) min n a 0 ≡ 0
digits-zero zero a = refl
digits-zero (suc n) zero = refl
digits-zero (suc n) (suc a) = rw (digits-zero n (suc a / two)) (omega arith)

pub masked-zero : (m : ℕ) → masked m 0 ≡ m % 1024
masked-zero m =
    let none_of : bit_and (m % 1024) 0 ≡ 0 =
      bit_and-bitwise (m % 1024) 0 ∙ digits-zero (m % 1024) (m % 1024) in
    rw none_of (omega arith)

Opens-IsDirectory : (t : Tree) (p : Names) → Opens t p → IsDirectory t p
Opens-IsDirectory t [] o = o
Opens-IsDirectory t (name ∷ above) o = o.0

placed-IsDirectory :
    (p : Names) (k : ℕ) (t : Tree) (q : Names)
    → IsDirectory t q
    → IsDirectory (placed p (directory k) t) q
placed-IsDirectory p k t q (mode, h) = elim (names_discrete q p) [
  | yes e ↦ (k, rw e (placed-same p (directory k) t))
  | no n ↦ (mode, placed-other p (directory k) t q n ∙ h)
]

placed-Opens :
    (p : Names) (k : ℕ) (t : Tree) (q : Names) → Opens t q → Opens (placed p (directory k) t) q
placed-Opens p k t [] o = placed-IsDirectory p k t [] o
placed-Opens p k t (name ∷ above) (d, o) =
    (placed-IsDirectory p k t (name ∷ above) d, placed-Opens p k t above o)

not_above : (name : List ℕ) (above below : Names) → above ≢ below ++ name ∷ above
not_above name above below e =
    let lengths : length above ≡ length below + suc (length above) =
      ap length e ∙ length-append below (name ∷ above) in
    omega arith

placed-Makes :
    (name : List ℕ) (above : Names) (m : ℕ) (before t : Tree)
    → before (name ∷ above) ≡ none
    → Makes m above before t
    → Makes m (name ∷ above) before (placed (name ∷ above) (directory (m % 1024)) t)
placed-Makes name above m before t absent makes =
    let p = name ∷ above in
    let k = m % 1024 in
    record {
      opens = ((k, placed-same p (directory k) t), placed-Opens p k t above makes.opens);
      only = (λ q. elim (names_discrete q p) [
        | yes e ↦ inr (rw e absent, rw e (placed-same p (directory k) t), ([], sym e))
        | no n ↦ elim (makes.only q) [
          | inl same ↦ inl (placed-other p (directory k) t q n ∙ same)
          | inr (gone, at, below) ↦ inr (
            gone,
            placed-other p (directory k) t q n ∙ at,
            (name ∷ below.0, ap (λ l. name ∷ l) below.1),
          )
        ]
      ]);
    }

module _ {others : Tree → Tree} {denied : Names → Bool} (alone : (t : Tree) → others t ≡ t)
    (allowed : (p : Names) → denied p ≡ false) where
  mkdir_lem :
      (name : List ℕ) (above : Names) (m : ℕ) (w : World)
      → w.umask ≡ 0
      → w.tree (name ∷ above) ≡ none
      → Opens w.tree above
      → mkdir others denied (name ∷ above) m w
        ≡ (record w { tree = placed (name ∷ above) (directory (m % 1024)) w.tree }, true)
  unfolding mkdir
  mkdir_lem name above m w mask absent opens =
      let (mode, parent) = Opens-IsDirectory w.tree above opens in
      rw (alone w.tree, absent, parent, allowed (name ∷ above), mask, masked-zero m, mkdir) refl

  mkpath_lem :
      (p : Names) (m : ℕ) (w : World)
      → w.umask ≡ 0
      → Clear w.tree p
      → (after : World) × (mkpath others denied p m w ≡ (after, true))
        × (after.umask ≡ 0)
        × Makes m p w.tree after.tree
  unfolding mkpath
  mkpath_lem [] m w mask clear = (w, refl, mask, record { opens = clear; only = (λ q. inl refl) })
  mkpath_lem (name ∷ above) m w mask (inl (here, opens)) =
      (w, rw (here.1, mkpath) refl, mask, record { opens = (here, opens); only = (λ q. inl refl) })
  mkpath_lem (name ∷ above) m w mask (inr (absent, clear)) =
      let (w1, made, mask1, makes) = mkpath_lem above m w mask clear in
      let absent1 : w1.tree (name ∷ above) ≡ none = elim (makes.only (name ∷ above)) [
        | inl same ↦ same ∙ absent
        | inr (_, _, below) ↦ absurd (not_above name above below.0 below.1)
      ] in
      let after = record w1 { tree = placed (name ∷ above) (directory (m % 1024)) w1.tree } in
      (
        after,
        rw (absent, made, mkpath) (mkdir_lem name above m w1 mask1 absent1 makes.opens),
        mask1,
        placed-Makes name above m w.tree w1.tree absent makes,
      )

  -- With no other process at work and every `mkdir` allowed, a path that is not there, and of which
  -- all that is there are directories, is created: the answer is 0 and the umask is what it was. The
  -- path then opens, and the tree has changed in nothing but the directories that the path lacked,
  -- which have the asked permission bits whatever the umask.
  pub mkdir_as_needed_lem :
      (p : Names) (m : ℕ) (w : World)
      → w.tree p ≡ none
      → Clear w.tree p
      → (after : World) × (mkdir_as_needed others denied (some p) m w ≡ (after, created))
        × (after.umask ≡ w.umask)
        × Makes m p w.tree after.tree
  unfolding mkdir_as_needed
  mkdir_as_needed_lem p m w absent clear =
      let (made, run, _, makes) = mkpath_lem p m (record w { umask = 0 }) refl clear in
      (record made { umask = w.umask }, rw (absent, run, mkdir_as_needed) refl, refl, makes)
