-- ===== src/Utils/Directories/Tests.antt =====
-- "a/b" is made where only the root is there.
use dyad.Prelude.{◌≡◌, ◌≢◌, refl, inr, ◌⊎◌, Bool, true, false, [], ◌∷◌, none, some}
use dyad.Utils.Directories.{
  Names, directory, Tree, World, created, existing, failed, unnamed, mkdir, mkpath, mkdir_as_needed,
}
use dyad.Utils.Directories.Made.{Makes, mkdir_as_needed_lem}
use dyad.Utils.Directories.Umask.{mkdir_as_needed-umask}

abbrev start : Tree
start [] = some (directory 493)
start (name ∷ above) = none

abbrev world : World
world = record { umask = 18; tree = start }

abbrev a_b : Names
a_b = (b'b' ∷ []) ∷ (b'a' ∷ []) ∷ []

abbrev alone : Tree → Tree
alone t = t

abbrev allowed : Names → Bool
allowed p = false

-- Another process has made everything with the bits 0700.
abbrev raced : Tree → Tree
raced t p = some (directory 448)

abbrev denied : Names → Bool
denied p = true

mkdir_as_needed_lem_example :
    (after : World) × (mkdir_as_needed alone allowed (some a_b) 448 world ≡ (after, created))
    × (after.umask ≡ 18)
    × Makes 448 a_b start after.tree
mkdir_as_needed_lem_example =
    mkdir_as_needed_lem (λ t. refl) (λ p. refl) a_b 448 world refl
      (inr (refl, inr (refl, (493, refl))))

mkdir_as_needed-umask_example :
    (((mkdir_as_needed alone denied (some a_b) 448 world).1 ≡ created)
      × ((mkdir_as_needed alone denied (some a_b) 448 world).0.umask ≡ 18))
    ⊎ (((mkdir_as_needed alone denied (some a_b) 448 world).1 ≢ created)
        × ((mkdir_as_needed alone denied (some a_b) 448 world).0.umask ≡ 0))
mkdir_as_needed-umask_example = mkdir_as_needed-umask alone denied a_b 448 world refl

refused : (mkdir_as_needed alone denied (some a_b) 448 world).1 ≡ failed
unfolding mkdir mkpath mkdir_as_needed
refused = refl

root_exists : mkdir_as_needed alone allowed (some []) 493 world ≡ (world, existing)
unfolding mkdir_as_needed
root_exists = refl

no_name : mkdir_as_needed alone allowed none 493 world ≡ (world, unnamed)
unfolding mkdir_as_needed
no_name = refl
