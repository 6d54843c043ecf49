-- ===== src/Cache/Policy.antt =====
-- The policies: dyad/cache/lru_cache.c, dyad/cache/fifo_cache.c, dyad/cache/dyad_cache_api.c, and
-- `dyad_set_and_init_cache_policy` of dyad/core/dyad_ctx.c.
use dyad.Prelude.{
  ℕ, ◌≡◌, refl, inl, inr, Bool, true, false, not, List, [], ◌∷◌, Option, none, some, ◌==◌,
  if◌then◌else◌, length, arith, ◌≢◌, Option-cases,
}
use dyad.Core.Codes.{Rc, rc_ok, rc_sysfail, rc_badcachemode, is_error}
use dyad.Core.Context.{CachePolicyMode, cache_none, cache_lru, cache_fifo, Ctx}
use dyad.Utils.Strings.{strncmp_eq}
use dyad.Cache.{Stat, KeyOf}

-- `struct dyad_cache_policy`; `has_private` is `private_cache.*_handle != NULL`.
pub record Policy : Type 0 where
  pub mode : CachePolicyMode
  pub has_private : Bool
  pub get_recency_key : KeyOf

abbrev pub dyad_cache_lru_get_recency_key : Stat → ℕ
dyad_cache_lru_get_recency_key st = st.st_atime

abbrev pub dyad_cache_fifo_get_recency_key : Stat → ℕ
dyad_cache_fifo_get_recency_key st = st.st_mtime

-- `malloc_ok` is what `malloc` answers for the private handle.
unfoldable pub dyad_cache_lru_init : Bool → Policy → Policy × Rc
dyad_cache_lru_init malloc_ok p =
    if not malloc_ok then (record p { has_private = false }, rc_sysfail) else (
      record p { has_private = true; get_recency_key = some dyad_cache_lru_get_recency_key },
      rc_ok,
    )

unfoldable pub dyad_cache_fifo_init : Bool → Policy → Policy × Rc
dyad_cache_fifo_init malloc_ok p =
    if not malloc_ok then (record p { has_private = false }, rc_sysfail) else (
      record p { has_private = true; get_recency_key = some dyad_cache_fifo_get_recency_key },
      rc_ok,
    )

abbrev pub init_mode : Bool → CachePolicyMode → Policy → Policy × Rc
init_mode malloc_ok cache_lru p = dyad_cache_lru_init malloc_ok p
init_mode malloc_ok cache_fifo p = dyad_cache_fifo_init malloc_ok p
init_mode malloc_ok cache_none p = (p, rc_ok)

-- The policy handle, then its private handle, is allocated.
unfoldable pub dyad_cache_policy_init : Bool → Bool → CachePolicyMode → Option Policy × Rc
unfolding dyad_cache_lru_init dyad_cache_fifo_init
dyad_cache_policy_init malloc_handle malloc_private mode =
    let (p, rc) =
      init_mode malloc_private mode
        (record { mode = mode; has_private = false; get_recency_key = none }) in
    if not malloc_handle then (none, rc_sysfail) else (some p, rc)

unfoldable pub dyad_cache_policy_finalize : Option Policy → Option Policy × Rc
dyad_cache_policy_finalize policy = (none, rc_ok)

-- "NONE", "LRU", "FIFO"
abbrev pub policy_name : CachePolicyMode → List ℕ
policy_name cache_none = b'N' ∷ b'O' ∷ b'N' ∷ b'E' ∷ []
policy_name cache_lru = b'L' ∷ b'R' ∷ b'U' ∷ []
policy_name cache_fifo = b'F' ∷ b'I' ∷ b'F' ∷ b'O' ∷ []

abbrev pub mode_of : List ℕ → Option CachePolicyMode
mode_of name =
    if strncmp_eq name (policy_name cache_none) (length name)
    then some cache_none
    else if strncmp_eq name (policy_name cache_lru) (length name)
    then some cache_lru
    else if strncmp_eq name (policy_name cache_fifo) (length name)
    then some cache_fifo
    else none

-- The context, with its policy beside it.
unfoldable pub dyad_set_and_init_cache_policy :
    Bool → Bool → Option (List ℕ) → ℕ → Ctx × Option Policy → (Ctx × Option Policy) × Rc
unfolding dyad_cache_policy_init dyad_cache_policy_finalize
dyad_set_and_init_cache_policy malloc_handle malloc_private none capacity (ctx, policy) =
    ((ctx, policy), rc_badcachemode)
dyad_set_and_init_cache_policy malloc_handle malloc_private (some name) capacity (ctx, policy) =
    elim (mode_of name) [
      | none ↦ ((ctx, policy), rc_badcachemode)
      | some named ↦
          let mode = if capacity == 0 then cache_none else named in
          let set : Ctx = record ctx { cache_policy_mode = mode } in
          let (finalized, rc) = dyad_cache_policy_finalize policy in
          let (made, rc') = dyad_cache_policy_init malloc_handle malloc_private mode in
          if is_error rc then ((set, finalized), rc) else ((set, made), rc')
    ]

-- The key by which a mode ranks files.
abbrev pub key_of_mode : CachePolicyMode → KeyOf
key_of_mode cache_none = none
key_of_mode cache_lru = some dyad_cache_lru_get_recency_key
key_of_mode cache_fifo = some dyad_cache_fifo_get_recency_key

abbrev pub key_of : Option Policy → KeyOf
key_of none = none
key_of (some p) = p.get_recency_key

init-key :
    (malloc_handle malloc_private : Bool) (mode : CachePolicyMode)
    → (dyad_cache_policy_init malloc_handle malloc_private mode).1 ≡ rc_ok
    → key_of (dyad_cache_policy_init malloc_handle malloc_private mode).0 ≡ key_of_mode mode
unfolding dyad_cache_policy_init
init-key false malloc_private mode h = cc
init-key true malloc_private cache_none h = refl
init-key true true cache_lru h = refl
init-key true false cache_lru h = cc
init-key true true cache_fifo h = refl
init-key true false cache_fifo h = cc

init-known :
    (malloc_handle malloc_private : Bool) (mode : CachePolicyMode)
    → (dyad_cache_policy_init malloc_handle malloc_private mode).1 ≢ rc_badcachemode
unfolding dyad_cache_policy_init
init-known false malloc_private mode h = cc
init-known true malloc_private cache_none h = cc
init-known true true cache_lru h = cc
init-known true false cache_lru h = cc
init-known true true cache_fifo h = cc
init-known true false cache_fifo h = cc

-- When `dyad_set_and_init_cache_policy` answers DYAD_RC_OK, the new policy ranks files by the key of
-- the context's mode: access time for LRU, modification time for FIFO, none for NONE; and a capacity
-- of 0 gives NONE whatever the name is. When it answers DYAD_RC_BADCACHEMODE, the context and the
-- policy are as before.
pub dyad_set_and_init_cache_policy_lem :
    (malloc_handle malloc_private : Bool) (name : List ℕ) (capacity : ℕ) (ctx : Ctx)
    (policy : Option Policy)
    → let r =
        dyad_set_and_init_cache_policy malloc_handle malloc_private
          (some name)
          capacity
          (ctx, policy) in
      (r.1 ≡ rc_ok
        → (key_of r.0.1 ≡ key_of_mode r.0.0.cache_policy_mode)
          × (capacity ≡ 0 → r.0.0.cache_policy_mode ≡ cache_none))
      × (r.1 ≡ rc_badcachemode → r.0 ≡ (ctx, policy))
unfolding dyad_set_and_init_cache_policy
dyad_set_and_init_cache_policy_lem malloc_handle malloc_private name capacity ctx policy =
    elim (Option-cases (mode_of name)) [
      | inl e ↦ rw (e, dyad_set_and_init_cache_policy) ((λ h. cc), λ _. refl)
      | inr (named, e) ↦
          let mode = if capacity == 0 then cache_none else named in
          rw (e, dyad_set_and_init_cache_policy)
            (
              (λ h. (init-key malloc_handle malloc_private mode h, λ z. ground (arith, z))),
              (λ h. absurd (init-known malloc_handle malloc_private mode h)),
            )
    ]
