-- ===== src/Core/SetPath.antt =====
-- `dyad_set_prod_path` and `dyad_set_cons_path` of dyad/core/dyad_ctx.c, which are one text for the
-- two sides. Whether an allocation succeeds, and at which address, is an argument.
pub mod Hashed
mod Tests
use dyad.Prelude.{
  ℕ, ◌%◌, ◌^◌, ◌<◌, ◌≡◌, ◌≢◌, refl, ◌⊎◌, inl, inr, Bool, true, false, not, ◌||◌, List, [], ◌∷◌,
  Option, none, some, arith, ◌==◌, if◌then◌else◌, length, Bool-cases, Option-cases,
}
use dyad.Core.Codes.{Rc, rc_ok, rc_sysfail, rc_noctx, rc_badmanagedpath}
use dyad.Core.Context.{Side, Ctx}
use dyad.Utils.Strings.{CStr, strncmp_eq}
use dyad.Utils.Paths.{Hash128, hash_str, dyad_seed}
use dyad.Utils.Paths.Filter.{Stored, IsHashed}

pub record Allocations : Type 0 where
  pub managed : Option ℕ
  pub real : Option ℕ

abbrev free_managed : Side → Side
free_managed s = elim s.managed_path [
  | none ↦ s
  | some _ ↦ record s { managed_path = none; managed_len = 0; managed_hash = 0 }
]

abbrev free_real : Side → Side
free_real s = elim s.real_path [
  | none ↦ s
  | some _ ↦ record s { real_path = none; real_len = 0; real_hash = 0 }
]

abbrev pub no_side : Side
no_side = record {
  managed_path = none;
  managed_len = 0;
  managed_hash = 0;
  real_path = none;
  real_len = 0;
  real_hash = 0;
}

-- The zeroed buffer that `realpath` writes to.
abbrev real_text : Option (List ℕ) → List ℕ
real_text none = []
real_text (some r) = r

module _ (murmur : List ℕ → ℕ → Hash128) (realpath : List ℕ → Option (List ℕ)) where
  -- From the call of `realpath` on. A path with no real path counts as one of length 0.
  unfoldable pub set_real : Allocations → List ℕ → Side → Side × Rc
  set_real al path s =
      let real = real_text (realpath path) in
      if length real == 0 || strncmp_eq path real (length path)
      then (record s { real_path = none; real_len = 0; real_hash = 0 }, rc_ok)
      else elim al.real [
        | none ↦ (record s { real_path = none }, rc_sysfail)
        | some a ↦
            let h = hash_str murmur (some real) dyad_seed in
            (
              record s {
                real_path = some (record { addr = a; text = real });
                real_len = length real % 2 ^ 32;
                real_hash = h;
              },
              (if h == 0 then rc_badmanagedpath else rc_ok),
            )
      ]

  unfoldable pub set_side : Allocations → Option (List ℕ) → Side → Side × Rc
  unfolding set_real
  set_side al none s = (no_side, rc_ok)
  set_side al (some path) s =
      let freed = free_real (free_managed s) in
      let h = hash_str murmur (some path) dyad_seed in
      if length path == 0 then (freed, rc_badmanagedpath) else elim al.managed [
        | none ↦ (record freed { managed_path = none }, rc_sysfail)
        | some a ↦
            let hashed : Side = record freed {
              managed_path = some (record { addr = a; text = path });
              managed_len = length path % 2 ^ 32;
              managed_hash = h;
            } in
            if h == 0 then (hashed, rc_badmanagedpath) else set_real al path hashed
      ]

  -- `reenter` is cleared during the call and put back. `none` is a thread without a context.
  unfoldable pub dyad_set_prod_path : Allocations → Option (List ℕ) → Option Ctx → Option Ctx × Rc
  dyad_set_prod_path al path none = (none, rc_noctx)
  dyad_set_prod_path al path (some ctx) =
      let reenter_backup = ctx.reenter in
      let closed : Ctx = record ctx { reenter = false } in
      let (side, rc) = set_side al path closed.prod in
      let set : Ctx = record closed { prod = side } in
      (some (record set { reenter = reenter_backup }), rc)

  unfoldable pub dyad_set_cons_path : Allocations → Option (List ℕ) → Option Ctx → Option Ctx × Rc
  dyad_set_cons_path al path none = (none, rc_noctx)
  dyad_set_cons_path al path (some ctx) =
      let reenter_backup = ctx.reenter in
      let closed : Ctx = record ctx { reenter = false } in
      let (side, rc) = set_side al path closed.cons in
      let set : Ctx = record closed { cons = side } in
      (some (record set { reenter = reenter_backup }), rc)
