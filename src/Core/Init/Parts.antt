-- ===== src/Core/Init/Parts.antt =====
-- What each stage of `dyad_init` adds to the context.
use dyad.Prelude.{
  ℕ, ◌/◌, ◌≡◌, ◌≢◌, refl, sym, subst, Bool, true, false, not, List, Option, none, some, ltb, ◌==◌,
  if◌then◌else◌, if-lem, Option-lem, length,
}
use dyad.Core.Codes.{Rc, rc_ok, is_error, ok_of_not_error}
use dyad.Core.Context.{Ctx, DtlMode, dtl_ucx, dtl_flux_rpc, dtl_margo, cache_none, CachePolicyMode}
use dyad.Core.Init.Stages.{Context, Post}
use dyad.Core.Init.{connect, set_namespace, set_origin, init_dtl, policy_str, init_policy, is_rc_ok}
use dyad.Core.Init.Transport.{dtl_mode_name, dtl_mode_of, dyad_set_and_init_dtl_mode, dyad_dtl_init}
use dyad.Core.Init.Args.{InitArgs, InitCalls, dyad_ctx_default}
use dyad.Utils.Strings.{strncmp_eq}
use dyad.Cache.Policy.{
  Policy, mode_of, key_of, key_of_mode, dyad_cache_policy_finalize, dyad_set_and_init_cache_policy,
  dyad_set_and_init_cache_policy_lem,
}

-- No path is managed, on either side.
abbrev pub NoPaths : Context → Type 0
NoPaths c = (c.ctx.prod.managed_path ≡ none) × (c.ctx.cons.managed_path ≡ none)

abbrev mux_of : InitArgs → ℕ
mux_of a = if ltb a.service_mux 1 then 1 else a.service_mux

abbrev pub Ranked : InitArgs → InitCalls → Ctx → Type 0
Ranked a os ctx =
    (ctx.has_handle ≡ true)
    × ((rank : ℕ) × (os.get_rank ≡ some rank)
        × (ctx.rank ≡ rank)
        × (ctx.node_idx ≡ rank / (if ltb a.service_mux 1 then 1 else a.service_mux)))

abbrev pub origin_of : InitArgs → Option (List ℕ)
origin_of a = elim a.origin_path [
  | none ↦ none
  | some path ↦ if ltb 0 (length path) then some path else none
]

-- The transport of the context is one whose name starts with the given name.
abbrev pub Transports : InitArgs → Ctx → Type 0
Transports a ctx =
    (name : List ℕ) × (mode : DtlMode) × (a.dtl_mode_str ≡ some name)
    × (ctx.dtl_mode ≡ some mode)
    × (strncmp_eq name (dtl_mode_name mode) (length name) ≡ true)

abbrev pub Evicts : InitArgs → Context → Type 0
Evicts a c =
    (key_of c.cache_policy ≡ key_of_mode c.ctx.cache_policy_mode)
    × (a.cache_capacity_bytes ≡ 0 → c.ctx.cache_policy_mode ≡ cache_none)

-- An error of a stage that goes to `init_region_finish`.
abbrev pub Fails : Context → Rc → Type 0
Fails c rc = (rc ≢ rc_ok) × NoPaths c

not-false : (b : Bool) → not b ≡ false → b ≡ true
not-false true h = refl
not-false false h = cc

pub rc_ok_of : (rc : Rc) → is_rc_ok rc ≡ true → rc ≡ rc_ok
rc_ok_of rc_ok h = refl
rc_ok_of _ h = cc

dtl_mode_of_lem :
    (name : List ℕ) (mode : DtlMode)
    → dtl_mode_of name ≡ some mode
    → strncmp_eq name (dtl_mode_name mode) (length name) ≡ true
unfolding dtl_mode_of
dtl_mode_of_lem name mode = if-lem Finds (starts dtl_flux_rpc) (found dtl_flux_rpc) (λ _.
    if-lem Finds (starts dtl_ucx) (found dtl_ucx)
      (λ _. if-lem Finds (starts dtl_margo) (found dtl_margo) (λ _ h. cc)))
  where
    starts : DtlMode → Bool
    starts m = strncmp_eq name (dtl_mode_name m) (length name)

    Finds : Option DtlMode → Type 0
    Finds o = o ≡ some mode → strncmp_eq name (dtl_mode_name mode) (length name) ≡ true

    found :
        (m : DtlMode)
        → strncmp_eq name (dtl_mode_name m) (length name) ≡ true
        → some m ≡ some mode
        → strncmp_eq name (dtl_mode_name mode) (length name) ≡ true
    found m test h =
        let same : m ≡ mode = cc in
        subst (λ k. strncmp_eq name (dtl_mode_name k) (length name) ≡ true) same test

dtl_mode_set :
    (os : InitCalls) (str : Option (List ℕ)) (ctx : Ctx)
    → is_error (dyad_set_and_init_dtl_mode os str ctx).1 ≡ false
    → (name : List ℕ) × (mode : DtlMode) × (str ≡ some name)
      × ((dyad_set_and_init_dtl_mode os str ctx).0 ≡ record ctx { dtl_mode = some mode })
      × (strncmp_eq name (dtl_mode_name mode) (length name) ≡ true)
unfolding dyad_set_and_init_dtl_mode dyad_dtl_init
dtl_mode_set os none ctx ok = cc
dtl_mode_set os (some name) ctx ok =
    Option-lem Sets (dtl_mode_of name) (λ _ h. cc)
      (λ mode at.
        if-lem (λ (r : Option DtlMode × Rc). Sets (record ctx { dtl_mode = r.0 }, r.1))
          (not os.malloc_dtl) (λ _ h. cc)
          (λ _ h. (name, mode, refl, refl, dtl_mode_of_lem name mode at)))
      ok
  where
    Sets : Ctx × Rc → Type 0
    Sets r =
        is_error r.1 ≡ false
        → (n : List ℕ) × (mode : DtlMode) × (some name ≡ some n)
          × (r.0 ≡ record ctx { dtl_mode = some mode })
          × (strncmp_eq n (dtl_mode_name mode) (length n) ≡ true)

policy_set :
    (os : InitCalls) (name : List ℕ) (capacity : ℕ) (ctx : Ctx) (policy : Option Policy)
    → (mode : CachePolicyMode) × ((dyad_set_and_init_cache_policy os.malloc_policy os.malloc_private
          (some name)
          capacity
          (ctx, policy)).0.0
        ≡ record ctx { cache_policy_mode = mode })
unfolding dyad_set_and_init_cache_policy dyad_cache_policy_finalize
policy_set os name capacity ctx policy =
    Option-lem
      (λ (r : (Ctx × Option Policy) × Rc).
        (mode : CachePolicyMode) × (r.0.0 ≡ record ctx { cache_policy_mode = mode }))
      (mode_of name) (λ _. (ctx.cache_policy_mode, refl))
      (λ named _. ((if capacity == 0 then cache_none else named), refl))

module _ (a : InitArgs) (os : InitCalls) where
  on_default : Post (λ c. Ranked a os c.ctx) Fails (connect a os dyad_ctx_default)
  on_default =
      if-lem (Post (λ c. Ranked a os c.ctx) Fails)
        (not (if a.flux_handle then true else os.flux_open)) (λ _. ((λ e. cc), (refl, refl)))
        (λ handle.
          Option-lem (Post (λ c. Ranked a os c.ctx) Fails) os.get_rank
            (λ _. ((λ e. cc), (refl, refl)))
            (λ rank at. (
              not-false (if a.flux_handle then true else os.flux_open) handle,
              (rank, at, refl, refl),
            )))

  pub connect_lem :
      (c : Context) → c ≡ dyad_ctx_default → Post (λ c. Ranked a os c.ctx) Fails (connect a os c)
  connect_lem c fresh =
      subst (λ d. Post (λ c. Ranked a os c.ctx) Fails (connect a os d)) (sym fresh) on_default

  abbrev pub Named : Context → Type 0
  Named c = Ranked a os c.ctx × (c.kvs_namespace ≡ a.kvs_namespace)

  pub set_namespace_lem :
      (c : Context) → Ranked a os c.ctx → Post Named Fails (set_namespace a os c)
  set_namespace_lem c before =
      Option-lem (Post Named Fails) a.kvs_namespace (λ _. tt)
        (λ text at. if-lem (Post Named Fails) os.calloc_namespace (λ _. (before, sym at)) (λ _. tt))

  abbrev pub Originates : Context → Type 0
  Originates c = Named c × (c.ctx.origin_path ≡ origin_of a)

  pub set_origin_lem : (c : Context) → Named c → Post Originates Fails (set_origin a os c)
  set_origin_lem c before =
      Option-lem (Post Originates Fails) a.origin_path (λ no_origin. (before, rw no_origin refl))
        (λ path at.
          if-lem (Post Originates Fails) (ltb 0 (length path))
            (λ filled.
              if-lem (Post Originates Fails) os.calloc_origin (λ _. (before, rw (at, filled) refl))
                (λ _. tt))
            (λ empty. (before, rw (at, empty) refl)))

  abbrev pub Connected : Context → Type 0
  Connected c = Originates c × Transports a c.ctx

  pub init_dtl_lem : (c : Context) → Originates c → Post Connected Fails (init_dtl a os c)
  unfolding init_dtl
  init_dtl_lem c before =
      if-lem (Post Connected Fails)
        (is_error (dyad_set_and_init_dtl_mode os a.dtl_mode_str c.ctx).1) (λ _. tt)
        (λ ok.
          let (name, mode, at, set, starts) = dtl_mode_set os a.dtl_mode_str c.ctx ok in
          subst (λ ctx. Connected (record c { ctx = ctx })) (sym set)
            (before, (name, mode, at, refl, starts)))

  abbrev pub Evicting : Context → Type 0
  Evicting c = Connected c × Evicts a c

  pub init_policy_lem : (c : Context) → Connected c → Post Evicting Fails (init_policy a os c)
  unfolding init_policy
  init_policy_lem c before =
      let r =
        dyad_set_and_init_cache_policy os.malloc_policy os.malloc_private (some (policy_str a))
          a.cache_capacity_bytes (c.ctx, c.cache_policy) in
      if-lem (Post Evicting Fails) (is_error r.1) (λ _. tt)
        (λ ok.
          let (mode, set) =
            policy_set os (policy_str a) a.cache_capacity_bytes c.ctx c.cache_policy in
          let right =
            dyad_set_and_init_cache_policy_lem os.malloc_policy os.malloc_private (policy_str a)
              a.cache_capacity_bytes c.ctx c.cache_policy in
          (
            subst (λ ctx. Connected (record c { ctx = ctx; cache_policy = r.0.1 })) (sym set)
                before,
            right.0 (ok_of_not_error r.1 ok),
          ))
