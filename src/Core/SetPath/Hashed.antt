-- ===== src/Core/SetPath/Hashed.antt =====
-- A side that is set holds the lengths and hashes of its paths.
use dyad.Prelude.{
  ℕ, ◌%◌, ◌^◌, ◌<◌, ◌≡◌, ◌≢◌, refl, ap, ◌∙◌, ◌⊎◌, inl, inr, Bool, false, ◌||◌, List, [], Option,
  none, some, arith, ◌==◌, length, Bool-cases, Option-cases,
}
use dyad.Core.Codes.{rc_ok}
use dyad.Core.Context.{Side, Ctx}
use dyad.Utils.Strings.{strncmp_eq}
use dyad.Utils.Paths.{Hash128, hash_str, dyad_seed}
use dyad.Utils.Paths.Filter.{Stored, IsHashed}
use dyad.Core.SetPath.{
  Allocations, real_text, set_real, set_side, dyad_set_prod_path, dyad_set_cons_path, free_managed,
  free_real,
}

module _ (murmur : List ℕ → ℕ → Hash128) (realpath : List ℕ → Option (List ℕ)) where
  -- Lengths fit `uint32_t`.
  abbrev pub Fits : List ℕ → Type 0
  Fits path = (length path < 2 ^ 32) × (length (real_text (realpath path)) < 2 ^ 32)

  filled_of_length : (s : List ℕ) → (length s == 0) ≡ false → s ≢ []
  filled_of_length s h e = absurd (ground (arith, ap length e))

  set_real-real :
      (al : Allocations) (path : List ℕ) (s : Side)
      → Fits path
      → (set_real murmur realpath al path s).1 ≡ rc_ok
      → let t = (set_real murmur realpath al path s).0 in
        (((t.real_path ≡ none) × (t.real_len ≡ 0))
          ⊎ Stored murmur t.real_path t.real_len t.real_hash)
        × (t.managed_path ≡ s.managed_path)
        × (t.managed_len ≡ s.managed_len)
        × (t.managed_hash ≡ s.managed_hash)
  unfolding set_real
  set_real-real al path s fits ok = elim (Bool-cases redundant) [
    | inl e ↦ rw e (inl (refl, refl), refl, refl, refl)
    | inr e ↦
        let (a, at, _) = stored e in
        rw (e, at)
          (
            inr (record {
              path = record { addr = a; text = real };
              is_path = refl;
              filled = filled_of_length real (ground arith);
              is_len = omega arith;
              is_hash = refl;
            }),
            refl,
            refl,
            refl,
          )
  ]
    where
      real : List ℕ
      real = real_text (realpath path)

      redundant : Bool
      redundant = length real == 0 || strncmp_eq path real (length path)

      stored :
          redundant ≡ false
          → (a : ℕ) × (al.real ≡ some a) × ((hash_str murmur (some real) dyad_seed == 0) ≡ false)
      stored e = elim (Option-cases al.real) [
        | inl no_room ↦ absurd (ground arith)
        | inr (a, at) ↦ (a, at, ground arith)
      ]

  pub set_side-IsHashed :
      (al : Allocations) (path : List ℕ) (s : Side)
      → Fits path
      → (set_side murmur realpath al (some path) s).1 ≡ rc_ok
      → IsHashed murmur (set_side murmur realpath al (some path) s).0
        × ((a : ℕ) × ((set_side murmur realpath al (some path) s).0.managed_path
              ≡ some (record { addr = a; text = path })))
  unfolding set_side
  set_side-IsHashed al path s fits ok =
      let (a, at, nonempty, hashed) = reached in
      let rest = set_real-real al path (with_path a) fits (rw (nonempty, at, hashed) at ok) in
      rw (nonempty, at, hashed)
        (
          record {
            managed = record {
              path = record { addr = a; text = path };
              is_path = rest.1;
              filled = filled_of_length path nonempty;
              is_len = rest.2 ∙ mod_eq;
              is_hash = rest.3;
            };
            real = rest.0;
          },
          (a, rest.1),
        )
    where
      freed : Side
      freed = free_real (free_managed s)

      with_path : ℕ → Side
      with_path a = record freed {
        managed_path = some (record { addr = a; text = path });
        managed_len = length path % 2 ^ 32;
        managed_hash = hash_str murmur (some path) dyad_seed;
      }

      mod_eq : length path % 2 ^ 32 ≡ length path
      mod_eq = omega arith

      reached :
          (a : ℕ) × (al.managed ≡ some a)
          × ((length path == 0) ≡ false)
          × ((hash_str murmur (some path) dyad_seed == 0) ≡ false)
      reached = elim (Option-cases al.managed) [
        | inl no_room ↦ absurd (ground arith)
        | inr (a, at) ↦ (a, at, ground arith, ground arith)
      ]

  -- A successful `dyad_set_prod_path` with a path (path and real path shorter than 2 ^ 32) leaves a
  -- producer side whose lengths and hashes are those of its paths, with that managed path; the
  -- consumer side and `reenter` are as they were.
  dyad_set_prod_path-IsHashed :
      (al : Allocations) (path : List ℕ) (ctx ctx' : Ctx)
      → Fits path
      → dyad_set_prod_path murmur realpath al (some path) (some ctx) ≡ (some ctx', rc_ok)
      → IsHashed murmur ctx'.prod
        × ((a : ℕ) × (ctx'.prod.managed_path ≡ some (record { addr = a; text = path })))
        × (ctx'.cons ≡ ctx.cons)
        × (ctx'.reenter ≡ ctx.reenter)
  unfolding dyad_set_prod_path
  dyad_set_prod_path-IsHashed al path ctx ctx' fits h =
      let after : (set_side murmur realpath al (some path) ctx.prod).1 ≡ rc_ok = ap (λ r. r.1) h in
      let side : (set_side murmur realpath al (some path) ctx.prod).0 ≡ ctx'.prod = ground arith in
      let found = set_side-IsHashed al path ctx.prod fits after in
      (rw side at found.0, rw side at found.1, ground arith, ground arith)

  -- The same for `dyad_set_cons_path` and the consumer side.
  dyad_set_cons_path-IsHashed :
      (al : Allocations) (path : List ℕ) (ctx ctx' : Ctx)
      → Fits path
      → dyad_set_cons_path murmur realpath al (some path) (some ctx) ≡ (some ctx', rc_ok)
      → IsHashed murmur ctx'.cons
        × ((a : ℕ) × (ctx'.cons.managed_path ≡ some (record { addr = a; text = path })))
        × (ctx'.prod ≡ ctx.prod)
        × (ctx'.reenter ≡ ctx.reenter)
  unfolding dyad_set_cons_path
  dyad_set_cons_path-IsHashed al path ctx ctx' fits h =
      let after : (set_side murmur realpath al (some path) ctx.cons).1 ≡ rc_ok = ap (λ r. r.1) h in
      let side : (set_side murmur realpath al (some path) ctx.cons).0 ≡ ctx'.cons = ground arith in
      let found = set_side-IsHashed al path ctx.cons fits after in
      (rw side at found.0, rw side at found.1, ground arith, ground arith)
