-- ===== src/Core/Init/Ready.antt =====
-- What a context has when `dyad_init` answers DYAD_RC_OK, and what it lacks otherwise.
use dyad.Prelude.{
  ℕ, ◌≡◌, ◌≢◌, refl, ◌⊎◌, inl, inr, true, false, List, Option, none, some, if-lem, if◌then◌else◌,
}
use dyad.Prelude.Run.{Run, returned, fault}
use dyad.Core.Codes.{Rc, rc_ok, rc_noctx}
use dyad.Core.Init.Stages.{Context, Stage, goes, finish, failed, Post}
use dyad.Core.Init.{no_path, ends, region_failed, set_up, dyad_init}
use dyad.Core.Init.Args.{InitArgs, InitCalls}
use dyad.Core.Init.Parts.{NoPaths, Ranked, origin_of, Transports, Evicts, Fails}
use dyad.Core.Init.Sides.{Manages, FitsOf, Completes, set_up_lem}
use dyad.Utils.Paths.{Hash128}

region_failed_lem :
    (c : Context) (rc : Rc) → ((region_failed c rc).1 ≢ rc_ok) × NoPaths (region_failed c rc).0
region_failed_lem c rc_noctx = ((λ e. cc), (refl, refl))
region_failed_lem c _ = ((λ e. cc), (refl, refl))

module _ (murmur : List ℕ → ℕ → Hash128) (realpath : List ℕ → Option (List ℕ)) where
  pub record Ready (a : InitArgs) (os : InitCalls) (c : Context) : Type 0 where
    pub initialized : c.initialized ≡ true
    pub reenter : c.ctx.reenter ≡ true
    pub locks : c.ctx.use_fs_locks ≡ true
    pub prod : Manages murmur realpath a.prod_managed_path c.ctx.prod
    pub cons : Manages murmur realpath a.cons_managed_path c.ctx.cons
    pub namespace : c.kvs_namespace ≡ a.kvs_namespace
    pub ranked : Ranked a os c.ctx
    pub origin : c.ctx.origin_path ≡ origin_of a
    pub transports : Transports a c.ctx
    pub evicts : Evicts a c

  abbrev pub Inits : InitArgs → InitCalls → Context × Rc → Type 0
  Inits a os r = ((r.1 ≡ rc_ok) × Ready a os r.0) ⊎ ((r.1 ≢ rc_ok) × NoPaths r.0)

  ends_lem :
      (a : InitArgs) (os : InitCalls) (s : Stage Context)
      → Post (Completes murmur realpath a os) Fails s
      → Inits a os (ends s)
  ends_lem a os (finish c rc) fails = inr fails
  ends_lem a os (failed c rc) _ = inr (region_failed_lem c rc)
  ends_lem a os (goes c) done = inl (
    refl,
    record {
      initialized = done.1;
      reenter = refl;
      locks = done.2;
      prod = done.0.0.1;
      cons = done.0.1;
      namespace = done.0.0.0.0.0.0.1;
      ranked = done.0.0.0.0.0.0.0;
      origin = done.0.0.0.0.0.1;
      transports = done.0.0.0.0.1;
      evicts = done.0.0.0.1;
    },
  )

  module _ (a : InitArgs) (os : InitCalls) (room : os.malloc_ctx ≡ true) where
    abbrev pub made : Context × Rc
    made = ends (set_up murmur realpath a os)

    abbrev pub IsMade : Run (Option Context × Rc) → Type 0
    IsMade m =
        m
        ≡ returned
            (some (ends (set_up murmur realpath a os)).0, (ends (set_up murmur realpath a os)).1)

    allocated : IsMade (if os.malloc_ctx then returned (some made.0, made.1) else fault)
    allocated = if-lem IsMade os.malloc_ctx (λ _. refl) (λ e. cc)

    -- A new context is that of the stages.
    pub dyad_init-new :
        (current : Option Context)
        → (a.reinit ≡ true) ⊎ (current ≡ none)
        → IsMade (dyad_init murmur realpath a os current)
    unfolding dyad_init
    dyad_init-new none new = if-lem IsMade a.reinit (λ _. allocated) (λ _. allocated)
    dyad_init-new (some c) (inl again) = if-lem IsMade a.reinit (λ _. allocated) (λ once. cc)
    dyad_init-new (some c) (inr e) = cc

  -- `dyad_init` on a thread without a context, or with `reinit`, where memory for the context is there,
  -- a managed path is given and the paths are shorter than 2 ^ 32. Whatever else the calls answer, it
  -- returns a context. Either the code is DYAD_RC_OK, and the context has the given paths with their
  -- lengths and hashes, the namespace and the origin path, the broker's node, a transport whose name
  -- starts with the given one, and a policy for its mode; or the code is an error, and it manages no
  -- path.
  pub dyad_init_lem :
      (a : InitArgs) (os : InitCalls) (current : Option Context)
      → (a.reinit ≡ true) ⊎ (current ≡ none)
      → os.malloc_ctx ≡ true
      → no_path a ≡ false
      → FitsOf murmur realpath a.prod_managed_path
      → FitsOf murmur realpath a.cons_managed_path
      → (r : Context × Rc) × (dyad_init murmur realpath a os current ≡ returned (some r.0, r.1))
        × Inits a os r
  dyad_init_lem a os current new room given fits_prod fits_cons = (
    ends (set_up murmur realpath a os),
    dyad_init-new a os room current new,
    ends_lem a os (set_up murmur realpath a os)
        (set_up_lem murmur realpath a os fits_prod fits_cons given),
  )
