-- ===== src/Client/Commit/Tests.antt =====
-- A producer of rank 3 commits "/p/a", and a consumer of another node looks it up.
use dyad.Prelude.{ℕ, ◌≡◌, ◌≢◌, refl, ap, true, false, List, [], ◌∷◌, Option, some, none, arith}
use mathlib.Core.Logic.{ite, if_pos, if_neg}
use native.Mathlib.Decide.{ℕ_discrete}
use dyad.Prelude.Run.{returned}
use dyad.Core.Codes.{rc_ok}
use dyad.Core.Context.{Ctx}
use dyad.Core.Samples.{sample_ctx, length_hash}
use dyad.Utils.Strings.{extract_user_path, strncmp_eq, c_text, ends_with, apart}
use dyad.Utils.Paths.{hash_str, hash_path_prefix, try_prefix, try_side, cmp_canonical_path_prefix}
use dyad.Utils.Paths.Samples.{asked, frame, side, side-IsHashed}
use dyad.Client.PathKey.{hex_onto, print_bins, gen_path_key}
use dyad.Client.Metadata.{topic_of, user_path_of, dyad_fetch_metadata}
use dyad.Client.Metadata.Owned.{path_below}
use dyad.Client.Commit.{
  CommitCalls, Committed, dyad_kvs_commit, publish, publish_via_flux, commit_below, dyad_commit,
}
use dyad.Client.Commit.Published.{Commits, dyad_commit_lem}
use dyad.Client.Commit.Found.{Kvs, applied, asks, found, dyad_commit-found, dyad_commit-other}

abbrev producer : Ctx
producer = record sample_ctx { prod = side; rank = 3 }

abbrev consumer : Ctx
consumer = record sample_ctx { node_idx = 7 }

abbrev calls : CommitCalls
calls = record {
  txn_create = true;
  txn_pack = true;
  kvs_commit = true;
  wait_for = true;
  accepts = true;
}

-- The KVS does not take the transaction.
abbrev rejected : CommitCalls
rejected = record calls { wait_for = false; accepts = false }

dyad_commit_lem_example :
    (c : Committed) × (dyad_commit length_hash frame rejected producer asked ≡ returned c)
    × (c.txn ≡ false)
    × Commits length_hash rejected producer (path_below length_hash frame producer true asked) c
dyad_commit_lem_example =
    dyad_commit_lem length_hash frame rejected producer asked side-IsHashed (omega arith) refl

program : Unit {0}
unfolding extract_user_path strncmp_eq c_text ends_with apart hash_str hash_path_prefix try_prefix
    try_side cmp_canonical_path_prefix hex_onto print_bins gen_path_key topic_of user_path_of
    publish dyad_kvs_commit publish_via_flux commit_below dyad_commit
program = tt

-- The key is "9e.87.a".
abbrev committed : Committed
committed = record {
  rc = rc_ok;
  put = some (b'9' ∷ b'e' ∷ b'.' ∷ b'8' ∷ b'7' ∷ b'.' ∷ b'a' ∷ [], 3);
  applied = true;
  waited = some true;
  txn = false;
  reenter = true;
  checked = false;
}

commits : dyad_commit length_hash frame calls producer asked ≡ returned committed
unfolding program
commits = refl

path_discrete : Discrete (List ℕ)
path_discrete = hlevel (ℕ_discrete)

-- A store as a function.
put_in : (List ℕ → Option ℕ) → List ℕ → ℕ → List ℕ → Option ℕ
put_in s key rank k = ite (path_discrete key k) (some rank) (s k)

put_in-same : (s : List ℕ → Option ℕ) (key : List ℕ) (rank : ℕ) → put_in s key rank key ≡ some rank
unfolding put_in
put_in-same s key rank = if_pos (path_discrete key key) refl (some rank) (s key)

put_in-other :
    (s : List ℕ → Option ℕ) (key key' : List ℕ) (rank : ℕ)
    → key ≢ key'
    → put_in s key rank key' ≡ s key'
unfolding put_in
put_in-other s key key' rank differs = if_neg (path_discrete key key') differs (some rank) (s key')

abbrev functions : Kvs
functions = record {
  State = List ℕ → Option ℕ;
  put = put_in;
  get = λ s k. s k;
  get_put = put_in-same;
  get_put_other = put_in-other;
}

is_below : path_below length_hash frame producer true asked ≡ some (b'a' ∷ [])
unfolding program
is_below = refl

abbrev after : List ℕ → Option ℕ
after = applied functions (λ _. none) committed.put

dyad_commit-found_example :
    dyad_fetch_metadata length_hash (asks functions after) consumer (b'a' ∷ []) 0
    ≡ returned (found functions length_hash consumer (b'a' ∷ []) 3 0)
dyad_commit-found_example =
    dyad_commit-found functions length_hash frame calls producer consumer asked (b'a' ∷ [])
      committed (λ _. none) 0 side-IsHashed (omega arith) refl is_below commits refl refl refl refl

head : List ℕ → ℕ
head [] = 0
head (x ∷ xs) = x

not_same : ◌≢◌ {A = List ℕ} (b'a' ∷ []) (b'b' ∷ [])
unfolding head
not_same h = absurd (omega (arith, ap head h))

dyad_commit-other_example :
    dyad_fetch_metadata length_hash (asks functions after) consumer (b'b' ∷ []) 0
    ≡ dyad_fetch_metadata length_hash (asks functions (λ _. none)) consumer (b'b' ∷ []) 0
dyad_commit-other_example =
    dyad_commit-other functions length_hash frame calls producer consumer asked (b'a' ∷ [])
      (b'b' ∷ []) committed (λ _. none) 0 side-IsHashed (omega arith) refl is_below commits refl
      refl refl refl refl (omega arith) (omega arith) not_same
