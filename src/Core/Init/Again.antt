-- ===== src/Core/Init/Again.antt =====
-- A second `dyad_init` behind one that has failed.
use dyad.Prelude.{
  ℕ, ◌≡◌, refl, ap, ◌⊎◌, inl, inr, true, false, List, Option, none, some, if◌then◌else◌,
  Option-cases,
}
use dyad.Prelude.Run.{returned}
use dyad.Core.Codes.{rc_ok, rc_noctx}
use dyad.Core.Init.{no_path, set_up, region_finish, ends, dyad_init}
use dyad.Core.Init.Args.{InitArgs, InitCalls, dyad_ctx_default}
use dyad.Core.Init.Ready.{dyad_init-new}
use dyad.Utils.Paths.{Hash128}

unnamed_lem :
    (murmur : List ℕ → ℕ → Hash128) (realpath : List ℕ → Option (List ℕ)) (a : InitArgs)
    (os : InitCalls) (rank : ℕ)
    → no_path a ≡ false
    → (if a.flux_handle then true else os.flux_open) ≡ true
    → os.get_rank ≡ some rank
    → (a.kvs_namespace ≡ none) ⊎ (os.calloc_namespace ≡ false)
    → ends (set_up murmur realpath a os) ≡ (dyad_ctx_default, rc_noctx)
unfolding set_up
unnamed_lem murmur realpath a os rank given handle ranked (inl unnamed) =
    rw (given, handle, ranked, unnamed, set_up) refl
unnamed_lem murmur realpath a os rank given handle ranked (inr no_room) =
    elim (Option-cases a.kvs_namespace) [
      | inl unnamed ↦ rw (given, handle, ranked, unnamed, set_up) refl
      | inr (text, named) ↦ rw (given, handle, ranked, named, no_room, set_up) refl
    ]

-- A first `dyad_init` on a thread without a context that gets a handle and a rank, and then no
-- namespace (none is given, or there is no memory for it), answers DYAD_RC_NOCTX and leaves the
-- default context, which counts as initialized. A second one without `reinit`, whatever its arguments
-- and whatever the calls answer, then answers DYAD_RC_OK and sets nothing of them.
pub dyad_init-again :
    (murmur : List ℕ → ℕ → Hash128) (realpath : List ℕ → Option (List ℕ)) (a a' : InitArgs)
    (os os' : InitCalls) (rank : ℕ)
    → os.malloc_ctx ≡ true
    → no_path a ≡ false
    → (if a.flux_handle then true else os.flux_open) ≡ true
    → os.get_rank ≡ some rank
    → (a.kvs_namespace ≡ none) ⊎ (os.calloc_namespace ≡ false)
    → a'.reinit ≡ false
    → (dyad_init murmur realpath a os none ≡ returned (some dyad_ctx_default, rc_noctx))
      × (dyad_init murmur realpath a' os' (some dyad_ctx_default)
          ≡ returned (some (region_finish dyad_ctx_default rc_ok).0, rc_ok))
unfolding dyad_init
dyad_init-again murmur realpath a a' os os' rank room given handle ranked unnamed once = (
  rw (dyad_init-new murmur realpath a os room none (inr refl)) (
      ap (λ r. returned (some r.0, r.1))
        (unnamed_lem murmur realpath a os rank given handle ranked unnamed)),
  rw (once, dyad_init) refl,
)
