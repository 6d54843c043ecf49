-- ===== src/Utils/Paths/Samples.antt =====
-- Test data: the managed path "/p" and the path "/p/a".
use dyad.Prelude.{refl, inl, [], ◌∷◌, none, some}
use dyad.Core.Context.{Side}
use dyad.Core.Samples.{unset_side, length_hash}
use dyad.Utils.Strings.{CStr}
use dyad.Utils.Paths.{Frame, dyad_seed, hash_str}
use dyad.Utils.Paths.Filter.{IsHashed}

abbrev pub managed : CStr
managed = record { addr = 100; text = b'/' ∷ b'p' ∷ [] }

abbrev pub asked : CStr
asked = record { addr = 30000; text = b'/' ∷ b'p' ∷ b'/' ∷ b'a' ∷ [] }

abbrev pub frame : Frame
frame = record {
  realpath = λ _. none;
  can_addr = 50000;
  delim_addr = 20000;
  upath = some 40000;
  upath_capacity = 4096;
}

abbrev pub side : Side
side = record unset_side {
  managed_path = some managed;
  managed_len = 2;
  managed_hash = hash_str length_hash (some managed.text) dyad_seed;
}

pub side-IsHashed : IsHashed length_hash side
side-IsHashed = record {
  managed = record {
    path = managed;
    is_path = refl;
    filled = λ e. cc;
    is_len = refl;
    is_hash = refl;
  };
  real = inl (refl, refl);
}
