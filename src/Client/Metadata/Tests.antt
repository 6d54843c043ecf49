-- ===== src/Client/Metadata/Tests.antt =====
-- The metadata of "/p/a", which the KVS has from rank 3.
use dyad.Prelude.{ℕ, ◌≡◌, refl, true, false, List, [], ◌∷◌, some, none, arith}
use dyad.Prelude.Run.{returned}
use dyad.Core.Codes.{Rc, rc_ok}
use dyad.Core.Context.{Ctx}
use dyad.Core.Samples.{sample_ctx, length_hash}
use dyad.Utils.Paths.Samples.{asked, frame, side, side-IsHashed}
use dyad.Client.Metadata.{Metadata, KvsCalls, Store, dyad_kvs_read, dyad_get_metadata}
use dyad.Client.Metadata.Owned.{Answered, path_below, dyad_get_metadata_lem}

abbrev ctx : Ctx
ctx = record sample_ctx { cons = side }

abbrev calls : KvsCalls
calls = record {
  lookup = λ topic should_wait. record { future = true; unpack = some 3 };
  malloc_mdata = true;
  malloc_fpath = true;
  opens = false;
}

abbrev path : List ℕ
path = b'a' ∷ []

abbrev old : Metadata
old = record { fpath = some (b'b' ∷ []); owner_rank = 1 }

reads :
    dyad_kvs_read calls [] path true true (record { mdata = none; blocks = 5 })
    ≡ (record { mdata = some (record { fpath = some path; owner_rank = 3 }); blocks = 7 }, rc_ok)
unfolding dyad_kvs_read
reads = refl

dyad_get_metadata_lem_example :
    (r : Store × Rc) × (dyad_get_metadata length_hash frame calls ctx asked true true
        (record { mdata = none; blocks = 5 })
      ≡ returned (r.0, r.1, true))
    × Answered length_hash calls ctx asked true 5 (path_below length_hash frame ctx false asked) r
dyad_get_metadata_lem_example =
    dyad_get_metadata_lem length_hash frame calls ctx asked true 5 side-IsHashed (omega arith) refl
