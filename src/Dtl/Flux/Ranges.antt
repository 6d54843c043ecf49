-- ===== src/Dtl/Flux/Ranges.antt =====
-- A request for a range, from the consumer to the module.
use dyad.Prelude.{ℕ, ◌<◌, ◌^◌, ◌≡◌, refl, ap, ◌∙◌, List, Option, some, none}
use dyad.Prelude.Integers.{ℤ, int64_of, size_of-int64_of}
use dyad.Core.Codes.{rc_ok}
use dyad.Dtl.Flux.{Module, Jansson, set_msg, packed, rpc_pack_range, rpc_unpack_range}

module _ {Json : Type 0} (jansson : Jansson Json) where
  -- Unpacking by the same format gives what was packed.
  abbrev pub IsFaithful : Type 0
  IsFaithful =
      (upath : List ℕ) (offset len : ℤ) (j : Json)
      → jansson.pack_range upath offset len ≡ some j
      → jansson.unpack_range j ≡ some (upath, offset, len)

  packed-some : (o : Option Json) (j : Json) → packed jansson o ≡ (some j, rc_ok) → o ≡ some j
  packed-some none j h = ap (λ r. r.0) h
  packed-some (some i) j h = ap (λ r. r.0) h

  -- When `dyad_dtl_flux_rpc_pack_range` answers DYAD_RC_OK for an offset and a length of `size_t`, then
  -- `dyad_dtl_flux_rpc_unpack_range` of a message that carries what it packed answers DYAD_RC_OK with
  -- the same path, offset and length, although both travel as signed integers, and keeps the message
  -- to respond to.
  pub rpc_pack_range-rpc_unpack_range :
      (payload : ℕ → Json) (upath : List ℕ) (producer_rank offset len msg : ℕ) (j : Json)
      (w : Module)
      → IsFaithful
      → offset < 2 ^ 64
      → len < 2 ^ 64
      → rpc_pack_range jansson upath producer_rank offset len ≡ (some j, rc_ok)
      → payload msg ≡ j
      → rpc_unpack_range jansson payload msg w
        ≡ (set_msg (some msg) w, some (upath, offset, len), rc_ok)
  unfolding rpc_pack_range rpc_unpack_range
  rpc_pack_range-rpc_unpack_range payload upath producer_rank offset len msg j w faithful
        small_offset small_len packs carries =
      let unpacks : jansson.unpack_range (payload msg)
          ≡ some (upath, int64_of offset, int64_of len) =
        ap jansson.unpack_range carries
        ∙ faithful upath (int64_of offset) (int64_of len) j
            (packed-some (jansson.pack_range upath (int64_of offset) (int64_of len)) j packs) in
      rw
        (
          rpc_unpack_range,
          unpacks,
          size_of-int64_of offset small_offset,
          size_of-int64_of len small_len,
        )
        refl
