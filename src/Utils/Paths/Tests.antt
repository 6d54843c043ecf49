-- ===== src/Utils/Paths/Tests.antt =====
-- The path filter on "/p" and "/p/a".
use dyad.Prelude.{◌≡◌, refl, [], ◌∷◌, some, false}
use dyad.Prelude.Run.{returned}
use dyad.Core.Context.{Ctx}
use dyad.Core.Samples.{sample_ctx, length_hash}
use dyad.Utils.Strings.{extract_user_path, strncmp_eq, c_text, ends_with, apart}
use dyad.Utils.Paths.{hash_str, hash_path_prefix, try_prefix, try_side, cmp_canonical_path_prefix}
use dyad.Utils.Paths.Samples.{asked, frame, side, side-IsHashed}
use dyad.Utils.Paths.Filter.{managed_user_path, cmp_canonical_path_prefix_lem}

program : Unit {0}
unfolding extract_user_path strncmp_eq c_text ends_with apart hash_str hash_path_prefix try_prefix
    try_side cmp_canonical_path_prefix
program = tt

abbrev ctx : Ctx
ctx = record sample_ctx { cons = side }

finds :
    cmp_canonical_path_prefix length_hash frame (some ctx) false asked ≡ returned (some (b'a' ∷ []))
unfolding program
finds = refl

cmp_canonical_path_prefix_lem_example :
    cmp_canonical_path_prefix length_hash frame (some ctx) false asked
    ≡ returned (managed_user_path frame side asked)
cmp_canonical_path_prefix_lem_example =
    cmp_canonical_path_prefix_lem length_hash frame ctx false asked side-IsHashed
