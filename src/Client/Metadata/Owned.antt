-- ===== src/Client/Metadata/Owned.antt =====
-- Who owns the metadata, on every path.
use dyad.Prelude.{
  ℕ, ◌+◌, ◌≤◌, ◌≡◌, refl, ◌⊎◌, inl, inr, Bool, true, false, not, ◌&&◌, List, [], Option, none, some,
  arith, ltb, ◌==◌, if◌then◌else◌, length, Bool-cases, Option-cases,
}
use dyad.Prelude.Run.{returned}
use dyad.Core.Codes.{Rc, rc_ok, rc_badfio, rc_untracked, is_error}
use dyad.Core.Context.{Ctx}
use dyad.Utils.Strings.{CStr, path_max}
use dyad.Utils.Paths.{Hash128, Frame}
use dyad.Utils.Paths.Filter.{IsHashed, managed_user_path, cmp_canonical_path_prefix_lem}
use dyad.Client.PathKey.{print_bins, gen_path_key}
use dyad.Client.Consume.{begins_with_delim}
use dyad.Client.Metadata.{
  Metadata, KvsCalls, Store, owned, dyad_free_metadata, fill, allocate, dyad_kvs_read, topic_of,
  user_path_of, local_metadata, dyad_get_metadata,
}

-- A call that began with no metadata: it has allocated two blocks, for metadata with this path and
-- rank, or it answers an error and has none.
abbrev pub Holds : ℕ → List ℕ → Option ℕ → Store × Rc → Type 0
Holds blocks fpath rank r =
    ((r.1 ≡ rc_ok)
      × ((owner_rank : ℕ) × (rank ≡ some owner_rank)
          × (r.0 ≡ record {
            mdata = some (record { fpath = some fpath; owner_rank = owner_rank });
            blocks = blocks + 2;
          })))
    ⊎ ((is_error r.1 ≡ true) × (r.0 ≡ record { mdata = none; blocks = blocks }))

allocate-Holds :
    (k : KvsCalls) (rank : Option ℕ) (fpath : List ℕ) (blocks : ℕ)
    → Holds blocks fpath rank (allocate k (fill k rank fpath) none blocks)
unfolding dyad_free_metadata
allocate-Holds k none fpath blocks = elim (Bool-cases k.malloc_mdata) [
  | inr e ↦ inr (ground (arith, e), ground (arith, e))
  | inl e ↦ elim (Bool-cases k.malloc_fpath) [
    | inr e₁ ↦ inr (ground (arith, e, e₁), ground (arith, e, e₁))
    | inl e₁ ↦ inr (ground (arith, e, e₁), ground (arith, e, e₁))
  ]
]
allocate-Holds k (some rank) fpath blocks = elim (Bool-cases k.malloc_mdata) [
  | inr e ↦ inr (ground (arith, e), ground (arith, e))
  | inl e ↦ elim (Bool-cases k.malloc_fpath) [
    | inr e₁ ↦ inr (ground (arith, e, e₁), ground (arith, e, e₁))
    | inl e₁ ↦ inl (ground (arith, e, e₁), (rank, refl, ground (arith, e, e₁)))
  ]
]

abbrev none_yet : ℕ → Store
none_yet blocks = record { mdata = none; blocks = blocks }

pub dyad_kvs_read-Holds :
    (k : KvsCalls) (topic upath : List ℕ) (should_wait : Bool) (blocks : ℕ)
    → Holds blocks upath
        (k.lookup topic should_wait).unpack
        (dyad_kvs_read k topic upath should_wait true (none_yet blocks))
unfolding dyad_kvs_read
dyad_kvs_read-Holds k topic upath should_wait blocks =
    elim (Bool-cases (k.lookup topic should_wait).future) [
      | inr e ↦ inr (ground (arith, e), ground (arith, e))
      | inl e ↦ rw e (allocate-Holds k (k.lookup topic should_wait).unpack upath blocks)
    ]

-- Metadata that are allocated before, with a path: a call that succeeds writes the new path over the
-- old one. It has allocated a block more, and what the caller can reach is as many blocks as before.
dyad_kvs_read-preallocated :
    (k : KvsCalls) (topic upath old : List ℕ) (should_wait : Bool) (s : Store) (m : Metadata)
    → s.mdata ≡ some m
    → m.fpath ≡ some old
    → (dyad_kvs_read k topic upath should_wait true s).1 ≡ rc_ok
    → let r = dyad_kvs_read k topic upath should_wait true s in
      (r.0.blocks ≡ s.blocks + 1) × (owned r.0.mdata ≡ owned s.mdata)
unfolding dyad_kvs_read
dyad_kvs_read-preallocated k topic upath old should_wait s m e e₁ ok =
    (ground (arith, e, e₁, ok), ground (arith, e, e₁, ok))

module _ (murmur : List ℕ → ℕ → Hash128) where
  -- The key exists where the number of bins is not 0.
  pub topic_of_lem :
      (ctx : Ctx) (upath : List ℕ)
      → (ctx.key_bins == 0) ≡ false
      → (topic : List ℕ) × (topic_of murmur ctx upath ≡ returned topic)
  unfolding topic_of gen_path_key
  topic_of_lem ctx upath bins = elim (Bool-cases (length upath == 0)) [
    | inl e ↦ ([], ground (arith, e))
    | inr e ↦ (
      (print_bins murmur upath path_max ctx.key_bins ctx.key_depth 0 57 []).path_key,
      ground (arith, e, bins),
    )
  ]

  -- The path below the managed directory of a side.
  abbrev pub path_below : Frame → Ctx → Bool → CStr → Option (List ℕ)
  path_below f ctx is_prod fname =
      if ctx.relative_to_managed_path && not (begins_with_delim fname.text)
      then some fname.text
      else managed_user_path f (if is_prod then ctx.prod else ctx.cons) fname

  pub user_path_of_lem :
      (f : Frame) (ctx : Ctx) (is_prod : Bool) (fname : CStr)
      → IsHashed murmur (if is_prod then ctx.prod else ctx.cons)
      → length fname.text ≤ path_max
      → user_path_of murmur f ctx is_prod fname ≡ returned (path_below f ctx is_prod fname)
  unfolding user_path_of
  user_path_of_lem f ctx is_prod fname hashed short =
      let filters = cmp_canonical_path_prefix_lem murmur f ctx is_prod fname hashed in
      let fits : ltb path_max (length fname.text) ≡ false = ground arith in
      elim (Bool-cases (ctx.relative_to_managed_path && not (begins_with_delim fname.text))) [
        | inl e ↦ rw (e, fits) refl
        | inr e ↦ rw e filters
      ]

  -- What a call of `dyad_get_metadata` answers, by the path below the consumer's directory.
  abbrev pub Answered : KvsCalls → Ctx → CStr → Bool → ℕ → Option (List ℕ) → Store × Rc → Type 0
  Answered k ctx fname should_wait blocks none r =
      (r.0 ≡ none_yet blocks) × (r.1 ≡ (if length fname.text == 0 then rc_badfio else rc_untracked))
  Answered k ctx fname should_wait blocks (some u) r =
      if length fname.text == 0
      then (r.0 ≡ none_yet blocks) × (r.1 ≡ rc_badfio)
      else if k.opens
      then Holds blocks fname.text (some ctx.rank) r
      else ((topic : List ℕ) × (topic_of murmur ctx u ≡ returned topic)
          × Holds blocks u (k.lookup topic should_wait).unpack r)

  -- A call of `dyad_get_metadata` that begins with no metadata, in a context whose consumer side is set
  -- and that has bins, for a path that fits PATH_MAX, returns with `reenter` set. For an empty path it
  -- answers DYAD_RC_BADFIO, outside the managed directory DYAD_RC_UNTRACKED; a file that opens here has
  -- metadata with its own path and the rank of the context, and no lookup; else the KVS is asked under
  -- the key of the path below the directory. It has allocated the two blocks of the metadata, or it
  -- answers an error, has none and has allocated nothing.
  pub dyad_get_metadata_lem :
      (f : Frame) (k : KvsCalls) (ctx : Ctx) (fname : CStr) (should_wait : Bool) (blocks : ℕ)
      → IsHashed murmur ctx.cons
      → length fname.text ≤ path_max
      → (ctx.key_bins == 0) ≡ false
      → (r : Store × Rc) × (dyad_get_metadata murmur f k ctx fname should_wait true
            (none_yet blocks)
          ≡ returned (r.0, r.1, true))
        × Answered k ctx fname should_wait blocks (path_below f ctx false fname) r
  unfolding dyad_get_metadata dyad_free_metadata
  dyad_get_metadata_lem f k ctx fname should_wait blocks hashed short bins =
      let finds = user_path_of_lem f ctx false fname hashed short in
      elim (Bool-cases (length fname.text == 0)) [
        | inl e ↦ elim (Option-cases (path_below f ctx false fname)) [
          | inl u ↦ ((none_yet blocks, rc_badfio), rw e refl, rw (u, e) (refl, refl))
          | inr (p, u) ↦ ((none_yet blocks, rc_badfio), rw e refl, rw (u, e) (refl, refl))
        ]
        | inr e ↦ elim (Option-cases (path_below f ctx false fname)) [
          | inl u ↦ ((none_yet blocks, rc_untracked), rw (e, finds, u) refl, rw (u, e) (refl, refl))
          | inr (p, u) ↦ elim (Bool-cases k.opens) [
            | inl o ↦ (
              local_metadata k ctx fname.text true (none_yet blocks),
              rw (e, finds, u, o) refl,
              rw (u, e, o) (allocate-Holds k (some ctx.rank) fname.text blocks),
            )
            | inr o ↦
                let (topic, keyed) = topic_of_lem ctx p bins in
                (
                  dyad_kvs_read k topic p should_wait true (none_yet blocks),
                  rw (e, finds, u, o, keyed) refl,
                  rw (u, e)
                      (simp o (topic, keyed, dyad_kvs_read-Holds k topic p should_wait blocks)),
                )
          ]
        ]
      ]
