-- ===== src/Client/Metadata.antt =====
-- The metadata of a file: `dyad_kvs_read`, `dyad_fetch_metadata`, `dyad_get_metadata` and
-- `dyad_free_metadata` of dyad/client/dyad_client.c. What the KVS, `open` and `malloc` answer are
-- arguments; the blocks of the heap are counted.
pub mod Owned
mod Tests
use dyad.Prelude.{
  ℕ, ◌+◌, ◌-◌, ◌/◌, Bool, true, false, not, ◌&&◌, List, Option, none, some, ltb, ◌==◌,
  if◌then◌else◌, length,
}
use dyad.Prelude.Run.{Run, returned, fault, ◌>>=◌}
use dyad.Core.Codes.{
  Rc, rc_ok, rc_sysfail, rc_badfio, rc_notfound, rc_badmetadata, rc_untracked, is_error,
}
use dyad.Core.Context.{Ctx}
use dyad.Utils.Strings.{CStr, path_max}
use dyad.Utils.Paths.{Hash128, Frame, cmp_canonical_path_prefix}
use dyad.Client.PathKey.{gen_path_key}
use dyad.Client.Consume.{begins_with_delim}

-- `fpath` is none where it is NULL.
pub record Metadata : Type 0 where
  pub fpath : Option (List ℕ)
  pub owner_rank : ℕ

-- The answer of `flux_kvs_lookup`, whether there is a future, and of the unpacking.
pub record Lookup : Type 0 where
  pub future : Bool
  pub unpack : Option ℕ

-- `lookup` goes by the key, and by whether it waits for the key to be made.
pub record KvsCalls : Type 0 where
  pub lookup : List ℕ → Bool → Lookup
  pub malloc_mdata : Bool
  pub malloc_fpath : Bool
  pub opens : Bool

-- The caller's pointer, `none` where it is NULL, and the blocks that are allocated.
pub record Store : Type 0 where
  pub mdata : Option Metadata
  pub blocks : ℕ

abbrev pub block : Option (List ℕ) → ℕ
block none = 0
block (some _) = 1

-- The blocks that the caller can reach.
abbrev pub owned : Option Metadata → ℕ
owned none = 0
owned (some m) = 1 + block m.fpath

unfoldable pub dyad_free_metadata : Store → Store
dyad_free_metadata s = elim s.mdata [
  | none ↦ s
  | some m ↦ record { mdata = none; blocks = s.blocks - owned (some m) }
]

-- An error behind which the metadata are given back.
abbrev pub freed : Rc → Store → Store × Rc
freed rc s = (dyad_free_metadata s, rc)

-- The path is copied and the rank unpacked, into metadata that are allocated.
abbrev pub fill : KvsCalls → Option ℕ → List ℕ → Metadata → ℕ → Store × Rc
fill k unpack upath m blocks =
    let empty : Metadata = record m { fpath = none } in
    let copied : Metadata = record m { fpath = some upath } in
    if not k.malloc_fpath
    then freed rc_sysfail (record { mdata = some empty; blocks = blocks })
    else elim unpack [
      | none ↦ freed rc_badmetadata (record { mdata = some copied; blocks = blocks + 1 })
      | some rank ↦ (
        record { mdata = some (record copied { owner_rank = rank }); blocks = blocks + 1 },
        rc_ok,
      )
    ]

abbrev pub allocate : KvsCalls → (Metadata → ℕ → Store × Rc) → Option Metadata → ℕ → Store × Rc
allocate k go (some m) blocks = go m blocks
allocate k go none blocks =
    if not k.malloc_mdata
    then (record { mdata = none; blocks = blocks }, rc_sysfail)
    else go (record { fpath = none; owner_rank = 0 }) (blocks + 1)

-- `has_mdata` says that the double pointer is not NULL.
unfoldable pub dyad_kvs_read : KvsCalls → List ℕ → List ℕ → Bool → Bool → Store → Store × Rc
unfolding dyad_free_metadata
dyad_kvs_read k topic upath should_wait has_mdata s =
    let l = k.lookup topic should_wait in
    if not has_mdata
    then (s, rc_notfound)
    else if not l.future
    then freed rc_notfound s
    else allocate k (fill k l.unpack upath) s.mdata s.blocks

-- The end of `dyad_fetch_metadata`: no metadata for a file of this node.
abbrev pub unless_local : Ctx → Store → Option Metadata → Run (Store × Rc)
unless_local ctx s none = fault
unless_local ctx s (some m) =
    if ctx.service_mux == 0
    then fault
    else if m.owner_rank / ctx.service_mux == ctx.node_idx
    then returned (dyad_free_metadata s, rc_ok)
    else returned (s, rc_ok)

-- A local file: no lookup.
abbrev pub local_metadata : KvsCalls → Ctx → List ℕ → Bool → Store → Store × Rc
local_metadata k ctx fname has_mdata s =
    if not has_mdata
    then (s, rc_notfound)
    else allocate k (fill k (some ctx.rank) fname) s.mdata s.blocks

abbrev pub done : Store × Rc → Run (Store × Rc × Bool)
done r = returned (r.0, r.1, true)

module _ (murmur : List ℕ → ℕ → Hash128) where
  -- The key of a path in a context, whatever `gen_path_key` answers.
  unfoldable pub topic_of : Ctx → List ℕ → Run (List ℕ)
  topic_of ctx upath = do
    key ← gen_path_key murmur (some upath) true path_max ctx.key_depth ctx.key_bins
    returned key.path_key

  -- The caller's pointer is overwritten by NULL first.
  unfoldable pub dyad_fetch_metadata : KvsCalls → Ctx → List ℕ → ℕ → Run (Store × Rc)
  unfolding topic_of
  dyad_fetch_metadata k ctx upath blocks = do
    topic ← topic_of ctx upath
    let r = dyad_kvs_read k topic upath true true (record { mdata = none; blocks = blocks })
    if is_error r.1 then returned r else unless_local ctx r.0 r.0.mdata

  -- The path below the managed directory; a path that is relative to it is copied, which is a fault
  -- where it is longer than the buffer.
  unfoldable pub user_path_of : Frame → Ctx → Bool → CStr → Run (Option (List ℕ))
  user_path_of f ctx is_prod fname =
      if ctx.relative_to_managed_path && not (begins_with_delim fname.text)
      then (if ltb path_max (length fname.text) then fault else returned (some fname.text))
      else cmp_canonical_path_prefix murmur f (some ctx) is_prod fname

  -- The result has `reenter` as it is left.
  unfoldable pub dyad_get_metadata :
      Frame → KvsCalls → Ctx → CStr → Bool → Bool → Store → Run (Store × Rc × Bool)
  unfolding topic_of user_path_of
  dyad_get_metadata f k ctx fname should_wait has_mdata s =
      if length fname.text == 0 then done (freed rc_badfio s) else do
        upath ← user_path_of f ctx false fname
        elim upath [
          | none ↦ done (freed rc_untracked s)
          | some u ↦
              if k.opens
              then done (local_metadata k ctx fname.text has_mdata s)
              else topic_of ctx u >>= λ topic.
                  done (dyad_kvs_read k topic u should_wait has_mdata s)
        ]
