-- ===== src/Client/Commit/Found.antt =====
-- A KVS between a producer and a consumer: what a commit submits under a path, once the KVS has it, is
-- found under that path, and under no other.
use dyad.Prelude.{
  ℕ, ◌+◌, ◌*◌, ◌/◌, ◌≤◌, ◌<◌, ◌≡◌, ◌≢◌, refl, sym, ap, subst, ◌∙◌, inl, inr, true, false, List,
  Option, none, some, arith, ◌==◌, if◌then◌else◌, length, Bool-cases,
}
use dyad.Prelude.Run.{returned}
use dyad.Core.Codes.{Rc, rc_ok, is_error}
use dyad.Core.Context.{Ctx}
use dyad.Utils.Strings.{CStr, path_max}
use dyad.Utils.Paths.{Hash128, Frame}
use dyad.Utils.Paths.Filter.{IsHashed}
use dyad.Client.PathKey.Recover.{after_dots, gen_path_key_lem}
use dyad.Client.Metadata.{
  KvsCalls, Store, dyad_free_metadata, fill, allocate, dyad_kvs_read, topic_of, dyad_fetch_metadata,
}
use dyad.Client.Metadata.Owned.{topic_of_lem, path_below}
use dyad.Client.Commit.{CommitCalls, Committed, dyad_commit}
use dyad.Client.Commit.Published.{Commits, Published, dyad_commit_lem}

-- Two paths never share a key, where the buffer has room for their keys.
topic_of-injective :
    (murmur : List ℕ → ℕ → Hash128) (ctx : Ctx) (u u' topic topic' : List ℕ)
    → (length u == 0) ≡ false
    → (length u' == 0) ≡ false
    → (ctx.key_bins == 0) ≡ false
    → 9 * ctx.key_depth + length u < path_max
    → 9 * ctx.key_depth + length u' < path_max
    → topic_of murmur ctx u ≡ returned topic
    → topic_of murmur ctx u' ≡ returned topic'
    → topic ≡ topic'
    → u ≡ u'
unfolding topic_of
topic_of-injective murmur ctx u u' topic topic' filled filled' bins room room' e e' same =
    let (key, runs, back) =
      gen_path_key_lem murmur u path_max ctx.key_depth ctx.key_bins filled bins room in
    let (key', runs', back') =
      gen_path_key_lem murmur u' path_max ctx.key_depth ctx.key_bins filled' bins room' in
    let is_key : key ≡ topic = let x = rw runs at e in cc in
    let is_key' : key' ≡ topic' = let x = rw runs' at e' in cc in
    sym back ∙ ap (after_dots ctx.key_depth) (is_key ∙ same ∙ sym is_key') ∙ back'

-- A store of ranks by key.
pub record Kvs : Type 1 where
  pub State : Type 0
  pub put : State → List ℕ → ℕ → State
  pub get : State → List ℕ → Option ℕ
  pub get_put : (s : State) (key : List ℕ) (rank : ℕ) → get (put s key rank) key ≡ some rank
  pub get_put_other :
      (s : State) (key key' : List ℕ) (rank : ℕ)
      → key ≢ key'
      → get (put s key rank) key' ≡ get s key'

module _ (kvs : Kvs) where
  open kvs use {State, put, get, get_put, get_put_other}

  -- The store when the KVS has taken what a commit submitted.
  abbrev pub applied : State → Option (List ℕ × ℕ) → State
  applied s none = s
  applied s (some (key, rank)) = put s key rank

  -- A KVS that answers every lookup from the store, and a heap that never fails.
  abbrev pub asks : State → KvsCalls
  asks s = record {
    lookup = λ key wait. record { future = true; unpack = get s key };
    malloc_mdata = true;
    malloc_fpath = true;
    opens = false;
  }

  module _ (murmur : List ℕ → ℕ → Hash128) where
    -- The consumer's view of the file: none of its own node, or where it is.
    abbrev pub found : Ctx → List ℕ → ℕ → ℕ → Store × Rc
    found c u rank blocks = (
      if rank / c.service_mux == c.node_idx
          then record { mdata = none; blocks = blocks }
          else record {
            mdata = some (record { fpath = some u; owner_rank = rank });
            blocks = blocks + 2;
          },
      rc_ok,
    )

    topic_of-same :
        (p c : Ctx) (u : List ℕ)
        → c.key_depth ≡ p.key_depth
        → c.key_bins ≡ p.key_bins
        → topic_of murmur c u ≡ topic_of murmur p u
    unfolding topic_of
    topic_of-same p c u e e₁ = simp (e, e₁)

    abbrev at_producer : List ℕ → ℕ → ℕ → Store
    at_producer u rank blocks = record {
      mdata = some (record { fpath = some u; owner_rank = rank });
      blocks = blocks + 2;
    }

    read-found :
        (u topic : List ℕ) (rank : ℕ) (s : State) (blocks : ℕ)
        → get s topic ≡ some rank
        → dyad_kvs_read (asks s) topic u true true (record { mdata = none; blocks = blocks })
          ≡ (at_producer u rank blocks, rc_ok)
    unfolding dyad_kvs_read
    read-found u topic rank s blocks there = ground (arith, there)

    -- A lookup of a key that the store has.
    fetch-found :
        (c : Ctx) (u topic : List ℕ) (rank : ℕ) (s : State) (blocks : ℕ)
        → topic_of murmur c u ≡ returned topic
        → get s topic ≡ some rank
        → (c.service_mux == 0) ≡ false
        → dyad_fetch_metadata murmur (asks s) c u blocks ≡ returned (found c u rank blocks)
    unfolding dyad_fetch_metadata dyad_free_metadata
    fetch-found c u topic rank s blocks keyed there mux =
        let read = read-found u topic rank s blocks there in
        elim (Bool-cases (rank / c.service_mux == c.node_idx)) [
          | inl e ↦ rw (keyed, read, mux, e) (ground arith)
          | inr e ↦ rw (keyed, read, mux, e) refl
        ]

    read-same :
        (u topic : List ℕ) (s s' : State) (blocks : ℕ)
        → get s topic ≡ get s' topic
        → dyad_kvs_read (asks s) topic u true true (record { mdata = none; blocks = blocks })
          ≡ dyad_kvs_read (asks s') topic u true true (record { mdata = none; blocks = blocks })
    unfolding dyad_kvs_read
    read-same u topic s s' blocks same =
        ap (λ r. allocate (asks s) (fill (asks s) r u) none blocks) same

    fetch-same :
        (c : Ctx) (u topic : List ℕ) (s s' : State) (blocks : ℕ)
        → topic_of murmur c u ≡ returned topic
        → get s topic ≡ get s' topic
        → dyad_fetch_metadata murmur (asks s) c u blocks
          ≡ dyad_fetch_metadata murmur (asks s') c u blocks
    unfolding dyad_fetch_metadata
    fetch-same c u topic s s' blocks keyed same =
        rw (keyed, read-same u topic s s' blocks same) refl

    -- The entry of a commit that answers DYAD_RC_OK.
    committed_entry :
        (f : Frame) (os : CommitCalls) (p : Ctx) (fname : CStr) (u : List ℕ) (d : Committed)
        → IsHashed murmur p.prod
        → length fname.text ≤ path_max
        → (p.key_bins == 0) ≡ false
        → path_below murmur f p true fname ≡ some u
        → dyad_commit murmur f os p fname ≡ returned d
        → d.rc ≡ rc_ok
        → (topic : List ℕ) × (topic_of murmur p u ≡ returned topic) × (d.put ≡ some (topic, p.rank))
    committed_entry f os p fname u d hashed short bins below runs ok =
        let (c, runs', _, commits) = dyad_commit_lem murmur f os p fname hashed short bins in
        let same : c ≡ d = cc in
        let (_, (topic, keyed, published)) =
          subst (λ x. Commits murmur os p x d) below
            (subst (λ x. Commits murmur os p (path_below murmur f p true fname) x) same commits) in
        (topic, keyed, put_of topic published)
      where
        not_ok : (rc : Rc) → rc ≡ rc_ok → is_error rc ≢ true
        not_ok rc e h = let x : is_error rc_ok ≡ true = subst (λ r. is_error r ≡ true) e h in cc

        put_of : (topic : List ℕ) → Published os p topic d → d.put ≡ some (topic, p.rank)
        put_of topic (inl (_, a, b, _, _)) = b
        put_of topic (inr (_, a, b, _, _)) = absurd (not_ok d.rc ok a)

    -- A producer that commits a path of its directory with DYAD_RC_OK: a consumer with the same key
    -- settings that fetches the metadata of that path below its own directory, from a KVS that has
    -- applied what the commit submitted, gets DYAD_RC_OK with the path and the producer's rank, or with no metadata where
    -- that rank is of its node. The producer's side is set, the path fits PATH_MAX, there are bins and
    -- brokers for each node, and no allocation of the consumer fails.
    pub dyad_commit-found :
        (f : Frame) (os : CommitCalls) (p c : Ctx) (fname : CStr) (u : List ℕ) (d : Committed)
        (s : State) (blocks : ℕ)
        → IsHashed murmur p.prod
        → length fname.text ≤ path_max
        → (p.key_bins == 0) ≡ false
        → path_below murmur f p true fname ≡ some u
        → dyad_commit murmur f os p fname ≡ returned d
        → d.rc ≡ rc_ok
        → c.key_depth ≡ p.key_depth
        → c.key_bins ≡ p.key_bins
        → (c.service_mux == 0) ≡ false
        → dyad_fetch_metadata murmur (asks (applied s d.put)) c u blocks
          ≡ returned (found c u p.rank blocks)
    dyad_commit-found f os p c fname u d s blocks hashed short bins below runs ok depth width mux =
        let (topic, keyed, put_it) =
          committed_entry f os p fname u d hashed short bins below runs ok in
        fetch-found c u topic p.rank (applied s d.put) blocks
          (topic_of-same p c u depth width ∙ keyed)
          (ap (λ e. get (applied s e) topic) put_it ∙ get_put s topic p.rank) mux

    -- The same commit, when the KVS has applied what it submitted, changes nothing for another path, where
    -- neither path is empty and the buffer has room for both keys.
    pub dyad_commit-other :
        (f : Frame) (os : CommitCalls) (p c : Ctx) (fname : CStr) (u u' : List ℕ) (d : Committed)
        (s : State) (blocks : ℕ)
        → IsHashed murmur p.prod
        → length fname.text ≤ path_max
        → (p.key_bins == 0) ≡ false
        → path_below murmur f p true fname ≡ some u
        → dyad_commit murmur f os p fname ≡ returned d
        → d.rc ≡ rc_ok
        → c.key_depth ≡ p.key_depth
        → c.key_bins ≡ p.key_bins
        → (length u == 0) ≡ false
        → (length u' == 0) ≡ false
        → 9 * p.key_depth + length u < path_max
        → 9 * p.key_depth + length u' < path_max
        → u ≢ u'
        → dyad_fetch_metadata murmur (asks (applied s d.put)) c u' blocks
          ≡ dyad_fetch_metadata murmur (asks s) c u' blocks
    dyad_commit-other f os p c fname u u' d s blocks hashed short bins below runs ok depth width
          filled filled' room room' differs =
        let (topic, keyed, put_it) =
          committed_entry f os p fname u d hashed short bins below runs ok in
        let (topic', keyed') = topic_of_lem murmur p u' bins in
        let apart = λ (same : topic ≡ topic'). differs (
          topic_of-injective murmur p u u' topic topic' filled filled' bins room room' keyed keyed'
            same) in
        let there : get (applied s d.put) topic' ≡ get s topic' =
          ap (λ e. get (applied s e) topic') put_it ∙ get_put_other s topic topic' p.rank apart in
        fetch-same c u' topic' (applied s d.put) s blocks
          (topic_of-same p c u' depth width ∙ keyed') there
