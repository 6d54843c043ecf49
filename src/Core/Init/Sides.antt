-- ===== src/Core/Init/Sides.antt =====
-- The last stages of `dyad_init`, which set the managed paths, and all stages in order.
use dyad.Prelude.{ℕ, ◌≡◌, refl, true, false, List, Option, none, some, if-lem}
use dyad.Core.Codes.{rc_ok}
use dyad.Core.Context.{Side}
use dyad.Core.SetPath.{Allocations, no_side, set_side, dyad_set_prod_path, dyad_set_cons_path}
use dyad.Core.SetPath.Hashed.{Fits, set_side-IsHashed}
use dyad.Core.Init.Stages.{Context, Post, Post-bind}
use dyad.Core.Init.{is_rc_ok, set_prod, set_cons, no_path, set_up}
use dyad.Core.Init.Args.{InitArgs, InitCalls, dyad_ctx_default}
use dyad.Utils.Paths.{Hash128}
use dyad.Utils.Paths.Filter.{IsHashed}
use dyad.Core.Init.Parts.{
  Fails, Ranked, rc_ok_of, Named, Originates, Connected, Evicting, connect_lem, set_namespace_lem,
  set_origin_lem, init_dtl_lem, init_policy_lem,
}

-- A side after the call that sets its path, or that leaves it unset.
module _ (murmur : List ℕ → ℕ → Hash128) (realpath : List ℕ → Option (List ℕ)) where
  abbrev pub Manages : Option (List ℕ) → Side → Type 0
  Manages none side = side ≡ no_side
  Manages (some path) side =
      IsHashed murmur side
      × ((at : ℕ) × (side.managed_path ≡ some (record { addr = at; text = path })))

  abbrev pub FitsOf : Option (List ℕ) → Type 0
  FitsOf none = Unit {0}
  FitsOf (some path) = Fits murmur realpath path

  set_side-Manages :
      (al : Allocations) (path : Option (List ℕ)) (s : Side)
      → FitsOf path
      → (set_side murmur realpath al path s).1 ≡ rc_ok
      → Manages path (set_side murmur realpath al path s).0
  unfolding set_side
  set_side-Manages al none s fits ok = refl
  set_side-Manages al (some path) s fits ok = set_side-IsHashed murmur realpath al path s fits ok

  module _ (a : InitArgs) (os : InitCalls) where
    abbrev pub Produces : Context → Type 0
    Produces c = Evicting a os c × Manages a.prod_managed_path c.ctx.prod

    set_prod_lem :
        (c : Context)
        → FitsOf a.prod_managed_path
        → Evicting a os c
        → Post Produces Fails (set_prod murmur realpath a os c)
    unfolding set_prod dyad_set_prod_path
    set_prod_lem c fits before =
        let r = set_side murmur realpath os.prod_path a.prod_managed_path c.ctx.prod in
        if-lem (Post Produces Fails) (is_rc_ok r.1)
          (λ ok. (
            before,
            set_side-Manages os.prod_path a.prod_managed_path c.ctx.prod fits (rc_ok_of r.1 ok),
          ))
          (λ _. tt)

    abbrev pub Consumes : Context → Type 0
    Consumes c = Produces c × Manages a.cons_managed_path c.ctx.cons

    set_cons_lem :
        (c : Context)
        → FitsOf a.cons_managed_path
        → Produces c
        → Post Consumes Fails (set_cons murmur realpath a os c)
    unfolding set_cons dyad_set_cons_path
    set_cons_lem c fits before =
        let r = set_side murmur realpath os.cons_path a.cons_managed_path c.ctx.cons in
        if-lem (Post Consumes Fails) (is_rc_ok r.1)
          (λ ok. (
            before,
            set_side-Manages os.cons_path a.cons_managed_path c.ctx.cons fits (rc_ok_of r.1 ok),
          ))
          (λ _. tt)

    abbrev pub Completes : Context → Type 0
    Completes c =
        Consumes c
        × (c.initialized ≡ true)
        × (c.ctx.use_fs_locks ≡ true)
        × (c.ctx.relative_to_managed_path ≡ a.relative_to_managed_path)

    -- All stages in order.
    pub set_up_lem :
        FitsOf a.prod_managed_path
        → FitsOf a.cons_managed_path
        → no_path a ≡ false
        → Post Completes Fails (set_up murmur realpath a os)
    unfolding set_up
    set_up_lem fits_prod fits_cons given =
        Post-bind (λ c. c ≡ dyad_ctx_default) Completes Fails _ _
          (if-lem (Post (λ c. c ≡ dyad_ctx_default) Fails) (no_path a) (λ e. cc) (λ _. refl))
          (λ c fresh.
            Post-bind (λ c. Ranked a os c.ctx) Completes Fails _ _ (connect_lem a os c fresh)
              (λ c at.
                Post-bind (Named a os) Completes Fails _ _ (set_namespace_lem a os c at) (λ c at.
                  Post-bind (Originates a os) Completes Fails _ _ (set_origin_lem a os c at)
                    (λ c at.
                      Post-bind (Connected a os) Completes Fails _ _ (init_dtl_lem a os c at)
                        (λ c at.
                          Post-bind (Evicting a os) Completes Fails _ _ (init_policy_lem a os c at)
                            (λ c at.
                              Post-bind Produces Completes Fails _ _ (set_prod_lem c fits_prod at)
                                (λ c at.
                                  Post-bind Consumes Completes Fails _ _
                                    (set_cons_lem c fits_cons at)
                                    (λ c at. (at, refl, refl, refl)))))))))
