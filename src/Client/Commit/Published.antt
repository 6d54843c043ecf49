-- ===== src/Client/Commit/Published.antt =====
-- What a commit submits to the KVS, and what it answers.
use dyad.Prelude.{
  ℕ, ◌≤◌, ◌≡◌, refl, ◌⊎◌, inl, inr, true, false, not, ◌&&◌, List, Option, none, some, ◌==◌, if-lem,
  if◌then◌else◌, arith, length,
}
use dyad.Prelude.Run.{returned}
use dyad.Core.Codes.{rc_ok, is_error}
use dyad.Core.Context.{Ctx}
use dyad.Utils.Strings.{CStr, path_max}
use dyad.Utils.Paths.{Hash128, Frame}
use dyad.Utils.Paths.Filter.{IsHashed}
use dyad.Client.Metadata.{topic_of}
use dyad.Client.Metadata.Owned.{topic_of_lem, path_below, user_path_of_lem}
use dyad.Client.Commit.{
  CommitCalls, Committed, untouched, dyad_kvs_commit, publish_done, publish, commit_done,
  publish_via_flux, commit_below, dyad_commit,
}

-- The transaction is submitted and the call answers DYAD_RC_OK, whatever becomes of the transaction,
-- or nothing is and it answers an error.
abbrev pub Published : CommitCalls → Ctx → List ℕ → Committed → Type 0
Published os ctx topic c =
    ((os.txn_create && os.txn_pack && os.kvs_commit ≡ true)
      × (c.rc ≡ rc_ok)
      × (c.put ≡ some (topic, ctx.rank))
      × (c.applied ≡ os.accepts)
      × (c.waited ≡ (if ctx.async_publish then none else some os.wait_for)))
    ⊎ ((os.txn_create && os.txn_pack && os.kvs_commit ≡ false)
        × (is_error c.rc ≡ true)
        × (c.put ≡ none)
        × (c.applied ≡ false)
        × (c.waited ≡ none))

abbrev begun : Ctx → Committed
begun ctx = record (untouched ctx rc_ok) { reenter = false }

publish-Published :
    (os : CommitCalls) (ctx : Ctx) (topic : List ℕ)
    → Published os ctx topic (publish os ctx topic (begun ctx))
unfolding publish dyad_kvs_commit
publish-Published os ctx topic =
    let P : Committed → Type 0 = λ c. Published os ctx topic (publish_done c) in
    if-lem P (not os.txn_create) (λ e. inr (ground (arith, e), refl, refl, refl, refl))
      (λ e.
        if-lem P (not os.txn_pack) (λ e₁. inr (ground (arith, e, e₁), refl, refl, refl, refl))
          (λ e₁.
            if-lem P (not os.kvs_commit)
              (λ e₂. inr (ground (arith, e, e₁, e₂), refl, refl, refl, refl))
              (λ e₂. inl (ground (arith, e, e₁, e₂), refl, refl, refl, refl))))

module _ (murmur : List ℕ → ℕ → Hash128) where
  -- What a commit leaves, by the path below the producer's directory.
  abbrev pub Commits : CommitCalls → Ctx → Option (List ℕ) → Committed → Type 0
  Commits os ctx none c = (c.rc ≡ rc_ok) × (c.put ≡ none) × (c.reenter ≡ ctx.reenter)
  Commits os ctx (some u) c =
      (c.reenter ≡ true)
      × ((topic : List ℕ) × (topic_of murmur ctx u ≡ returned topic) × Published os ctx topic c)

  commit_done-Commits :
      (os : CommitCalls) (ctx : Ctx) (u : Option (List ℕ)) (c : Committed)
      → Commits os ctx u c
      → (c.txn ≡ false)
      → ((commit_done ctx c).txn ≡ false) × Commits os ctx u (commit_done ctx c)
  commit_done-Commits os ctx none c h destroyed =
      if-lem (λ d. (d.txn ≡ false) × Commits os ctx none d) (not (is_error c.rc) && ctx.check)
        (λ _. (destroyed, h)) (λ _. (destroyed, h))
  commit_done-Commits os ctx (some u) c h destroyed =
      if-lem (λ d. (d.txn ≡ false) × Commits os ctx (some u) d) (not (is_error c.rc) && ctx.check)
        (λ _. (destroyed, h)) (λ _. (destroyed, h))

  commit_below-Commits :
      (os : CommitCalls) (ctx : Ctx) (u : Option (List ℕ))
      → (ctx.key_bins == 0) ≡ false
      → (c : Committed) × (commit_below murmur os ctx u ≡ returned c)
        × (c.txn ≡ false)
        × Commits os ctx u c
  unfolding commit_below publish_via_flux publish
  commit_below-Commits os ctx none bins =
      let (destroyed, h) =
        commit_done-Commits os ctx none (untouched ctx rc_ok) (refl, refl, refl) refl in
      (commit_done ctx (untouched ctx rc_ok), refl, destroyed, h)
  commit_below-Commits os ctx (some u) bins =
      let (topic, keyed) = topic_of_lem murmur ctx u bins in
      let c : Committed = record (publish os ctx topic (begun ctx)) { reenter = true } in
      let (destroyed, h) =
        commit_done-Commits os ctx (some u) c (refl, (topic, keyed, publish-Published os ctx topic))
          refl in
      (commit_done ctx c, rw keyed refl, destroyed, h)

  -- A commit in a context whose producer side is set and that has bins, of a path that fits PATH_MAX,
  -- returns with its transaction destroyed. Outside the managed directory it answers DYAD_RC_OK and
  -- submits nothing. Inside, it answers DYAD_RC_OK exactly when the transaction is created and packed
  -- and `flux_kvs_commit` gives a future, and then the rank of the context is submitted under the key
  -- of the path below the directory; else it answers an error with nothing submitted. Whether it
  -- answers DYAD_RC_OK depends neither on whether the KVS applies what is submitted nor on the answer
  -- of `flux_future_wait_for`, which is called exactly when it has submitted and publishing is synchronous.
  pub dyad_commit_lem :
      (f : Frame) (os : CommitCalls) (ctx : Ctx) (fname : CStr)
      → IsHashed murmur ctx.prod
      → length fname.text ≤ path_max
      → (ctx.key_bins == 0) ≡ false
      → (c : Committed) × (dyad_commit murmur f os ctx fname ≡ returned c)
        × (c.txn ≡ false)
        × Commits os ctx (path_below murmur f ctx true fname) c
  unfolding dyad_commit
  dyad_commit_lem f os ctx fname hashed short bins =
      let u = path_below murmur f ctx true fname in
      let (c, runs, destroyed, commits) = commit_below-Commits os ctx u bins in
      (c, rw (user_path_of_lem murmur f ctx true fname hashed short) runs, destroyed, commits)
