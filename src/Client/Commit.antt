-- ===== src/Client/Commit.antt =====
-- The commit of a produced file: `dyad_kvs_commit`, `publish_via_flux` and `dyad_commit` of
-- dyad/client/dyad_client.c. What Flux answers is an argument; the transaction that `flux_kvs_commit`
-- submits is a result. Whether the KVS takes it, the code does not look at.
pub mod Published
pub mod Found
mod Tests
use dyad.Prelude.{ℕ, Bool, true, false, not, ◌&&◌, List, Option, none, some, if◌then◌else◌, length}
use dyad.Prelude.Run.{Run, returned, fault, ◌>>=◌}
use dyad.Core.Codes.{Rc, rc_ok, rc_fluxfail, rc_badcommit, is_error}
use dyad.Core.Context.{Ctx}
use dyad.Utils.Strings.{CStr}
use dyad.Utils.Paths.{Hash128, Frame}
use dyad.Client.Metadata.{topic_of, user_path_of}

-- `kvs_commit` says that `flux_kvs_commit` has a future: the transaction is submitted. `wait_for` is
-- whether `flux_future_wait_for` answers that the future is fulfilled, and `accepts` whether the KVS
-- applies a transaction that is submitted.
pub record CommitCalls : Type 0 where
  pub txn_create : Bool
  pub txn_pack : Bool
  pub kvs_commit : Bool
  pub wait_for : Bool
  pub accepts : Bool

-- `put` is the key and the rank of the transaction that was submitted, and `applied` says that the KVS
-- takes it. `waited` is what `flux_future_wait_for` answered, where it was called. `txn` is a
-- transaction that is not destroyed, `checked` the environment variable that is set.
pub record Committed : Type 0 where
  pub rc : Rc
  pub put : Option (List ℕ × ℕ)
  pub applied : Bool
  pub waited : Option Bool
  pub txn : Bool
  pub reenter : Bool
  pub checked : Bool

abbrev pub untouched : Ctx → Rc → Committed
untouched ctx rc = record {
  rc = rc;
  put = none;
  applied = false;
  waited = none;
  txn = false;
  reenter = ctx.reenter;
  checked = false;
}

-- The answer of `flux_future_wait_for` is dropped, and that of the KVS is not asked for.
unfoldable pub dyad_kvs_commit : CommitCalls → Ctx → List ℕ × ℕ → Committed → Committed
dyad_kvs_commit os ctx entry c =
    if not os.kvs_commit then record c { rc = rc_badcommit } else record c {
      rc = rc_ok;
      put = some entry;
      applied = os.accepts;
      waited = if ctx.async_publish then none else some os.wait_for;
    }

-- The transaction is destroyed at `publish_done` in any case.
abbrev pub publish_done : Committed → Committed
publish_done c = record c { txn = false }

unfoldable pub publish : CommitCalls → Ctx → List ℕ → Committed → Committed
unfolding dyad_kvs_commit
publish os ctx topic c =
    let created : Committed = record c { txn = true } in
    publish_done (
      if not os.txn_create
      then record c { rc = rc_fluxfail }
      else if not os.txn_pack
      then record created { rc = rc_fluxfail }
      else dyad_kvs_commit os ctx (topic, ctx.rank) created)

-- `commit_done`
abbrev pub commit_done : Ctx → Committed → Committed
commit_done ctx c = if not (is_error c.rc) && ctx.check then record c { checked = true } else c

module _ (murmur : List ℕ → ℕ → Hash128) where
  unfoldable pub publish_via_flux : CommitCalls → Ctx → List ℕ → Committed → Run Committed
  unfolding publish topic_of
  publish_via_flux os ctx upath c = do
    topic ← topic_of murmur ctx upath
    returned (publish os ctx topic c)

  -- Behind the filter.
  unfoldable pub commit_below : CommitCalls → Ctx → Option (List ℕ) → Run Committed
  unfolding publish_via_flux
  commit_below os ctx none = returned (commit_done ctx (untouched ctx rc_ok))
  commit_below os ctx (some u) = do
    c ← publish_via_flux os ctx u (record (untouched ctx rc_ok) { reenter = false })
    returned (commit_done ctx (record c { reenter = true }))

  unfoldable pub dyad_commit : Frame → CommitCalls → Ctx → CStr → Run Committed
  unfolding commit_below user_path_of
  dyad_commit f os ctx fname = do
    upath ← user_path_of murmur f ctx true fname
    commit_below os ctx upath
