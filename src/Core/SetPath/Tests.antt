-- ===== src/Core/SetPath/Tests.antt =====
-- A producer path and a consumer path "/p" set on a fresh context.
use dyad.Prelude.{ℕ, ◌≡◌, refl, List, [], ◌∷◌, Option, some}
use dyad.Core.Codes.{rc_ok}
use dyad.Core.Context.{Side}
use dyad.Core.Samples.{sample_ctx, length_hash}
use dyad.Utils.Strings.{strncmp_eq}
use dyad.Utils.Paths.{dyad_seed, hash_str}
use dyad.Core.SetPath.{Allocations, set_real, set_side, dyad_set_prod_path, dyad_set_cons_path}

program : Unit {0}
unfolding strncmp_eq hash_str set_real set_side dyad_set_prod_path dyad_set_cons_path
program = tt

abbrev path : List ℕ
path = b'/' ∷ b'p' ∷ []

-- The real path is "/q".
abbrev linked : List ℕ → Option (List ℕ)
linked _ = some (b'/' ∷ b'q' ∷ [])

abbrev room : Allocations
room = record { managed = some 100; real = some 200 }

abbrev side : Side
side = record {
  managed_path = some (record { addr = 100; text = path });
  managed_len = 2;
  managed_hash = hash_str length_hash (some path) dyad_seed;
  real_path = some (record { addr = 200; text = b'/' ∷ b'q' ∷ [] });
  real_len = 2;
  real_hash = hash_str length_hash (some (b'/' ∷ b'q' ∷ [])) dyad_seed;
}

prod_set :
    dyad_set_prod_path length_hash linked room (some path) (some sample_ctx)
    ≡ (some (record sample_ctx { prod = side }), rc_ok)
unfolding program
prod_set = refl

cons_set :
    dyad_set_cons_path length_hash linked room (some path) (some sample_ctx)
    ≡ (some (record sample_ctx { cons = side }), rc_ok)
unfolding program
cons_set = refl
