-- ===== src/Dtl/Ucx/Tests.antt =====
-- Two consumers, of the processes 7 and 9, whose address is their key.
use dyad.Prelude.{arith, true, false, ℕ, ◌+◌, ◌≡◌, refl, List, [], ◌∷◌, none, some}
use dyad.Prelude.Run.{returned, fault}
use dyad.Core.Codes.{Rc, rc_ok, rc_sysfail, rc_ucxcomm_fail}
use dyad.Dtl.EpCache.{
  Endpoint, closed, find, erase, disconnect_all, dyad_ucx_ep_cache_remove,
  dyad_ucx_ep_cache_finalize,
}
use dyad.Dtl.Ucx.{
  Transport, Payload, unpacked, refused, UcxCalls, unpack_rkey, unpack_address, rpc_unpack,
  connect_sender, establish_connection, send, close_connection,
}
use dyad.Dtl.Ucx.Requests.{Request, respond_with, serve, serve_all}
use dyad.Dtl.Ucx.Endpoints.{OwnedBy, serve_all-Owned}
use dyad.Dtl.Ucx.Links.{Idle, idle}
use dyad.Dtl.Ucx.Serves.{Known, Known-extend, Served, serve_lem}
use dyad.Dtl.Ucx.Steps.{all_succeed, put_of}
use dyad.Dtl.Ucx.Stale.{put_fails, serve_stale}
use dyad.Dtl.Ucx.Thrown.{insert_throws, serve_throws}
use dyad.Dtl.Ucx.SharedKey.{serve_same_pid}

program : Unit {0}
unfolding closed find erase disconnect_all unpack_rkey unpack_address rpc_unpack connect_sender
    establish_connection send close_connection respond_with serve serve_all
program = tt

abbrev endpoint_of : ℕ → ℕ → Endpoint
endpoint_of number key = record { number = number; address = key ∷ [] }

abbrev key7 : ℕ
key7 = 30064771072

abbrev key9 : ℕ
key9 = 38654705664

abbrev asks : ℕ → ℕ → Payload
asks pid key = record {
  tag_prod = 1;
  cons_buf = 4096 + pid;
  pid = pid;
  enc_addr = key ∷ [];
  enc_rkey = pid ∷ [];
}

abbrev start : Idle
start = record {
  cache = [];
  worker = record { opened = []; next = 0 };
  key = 0;
  buffer = 0;
  blocks = 0;
  rkeys = 0;
  puts = [];
}

abbrev both : Idle
both = record start {
  cache = (key9, endpoint_of 1 key9) ∷ (key7, endpoint_of 0 key7) ∷ [];
  worker = record { opened = endpoint_of 1 key9 ∷ endpoint_of 0 key7 ∷ []; next = 2 };
}

abbrev request : ℕ → ℕ → UcxCalls → Request
request pid key calls = record {
  message = unpacked (asks pid key);
  file = some (pid ∷ []);
  calls = calls;
}

abbrev requests : List Request
requests =
    request 7 key7 all_succeed
    ∷ request 9 key9 put_fails
    ∷ record { message = refused (some 0); file = none; calls = all_succeed }
    ∷ request 9 key9 all_succeed
    ∷ []

serve_all-Owned_example :
    (t' : Transport) × (serve_all some requests (idle start) ≡ returned t')
    × OwnedBy t'
    × ((dyad_ucx_ep_cache_finalize (λ ep. false) (some t'.ucx.ep_cache) t'.worker).0.1.opened ≡ [])
serve_all-Owned_example =
    serve_all-Owned some (λ ep. false) requests (idle start) (tt, (tt, (tt, (tt, tt))))
      (refl, (refl, (refl, (refl, tt)))) refl

-- The address of each consumer is its key.
abbrev address : ℕ → List ℕ
address key = key ∷ []

known : Known address both.cache
unfolding find
known =
    Known-extend address key9 (endpoint_of 1 key9) ((key7, endpoint_of 0 key7) ∷ []) refl
      (Known-extend address key7 (endpoint_of 0 key7) [] refl (λ key e h. cc))

serve_lem_example :
    (r : Transport × Rc) × (serve some (request 7 key7 all_succeed) (idle both) ≡ returned r)
    × Served some address both (asks 7 key7) (7 ∷ []) r
serve_lem_example = serve_lem some address both (asks 7 key7) (7 ∷ []) all_succeed refl known

serve_stale_example :
    (t t' : Transport) × (serve some (request 7 key7 put_fails) (idle both)
      ≡ returned (t, rc_ucxcomm_fail))
    × (serve some (request 9 key9 all_succeed) t ≡ returned (t', rc_ok))
    × (t'.puts
        ≡ record { endpoint = endpoint_of 0 key7; buffer = 4105; rkey = 9 ∷ []; bytes = 9 ∷ [] }
          ∷ [])
unfolding find
serve_stale_example =
    serve_stale some both (asks 7 key7) (asks 9 key9) (7 ∷ []) (9 ∷ []) (key7 ∷ []) (key9 ∷ [])
      (7 ∷ []) (9 ∷ []) (endpoint_of 0 key7) (endpoint_of 1 key9) refl refl refl refl refl refl

-- A consumer of another node, whose process has the number 7 too.
abbrev elsewhere : Payload
elsewhere = record (asks 7 key7) { enc_addr = 5 ∷ [] }

serve_same_pid_example :
    (t t' : Transport) × (ep : Endpoint) × (serve some (request 7 key7 all_succeed) (idle start)
      ≡ returned (t, rc_ok))
    × (serve some
          (record { message = unpacked elsewhere; file = some (8 ∷ []); calls = all_succeed })
          t
        ≡ returned (t', rc_ok))
    × (t'.puts
        ≡ put_of elsewhere (8 ∷ []) (7 ∷ []) ep ∷ put_of (asks 7 key7) (7 ∷ []) (7 ∷ []) ep ∷ [])
    × (ep.address ≡ key7 ∷ [])
unfolding find
serve_same_pid_example =
    serve_same_pid some start (asks 7 key7) elsewhere (7 ∷ []) (8 ∷ []) (key7 ∷ []) (5 ∷ [])
      (7 ∷ []) (7 ∷ []) refl refl refl refl refl refl

serve_throws_example :
    (t : Transport) × (serve some (request 5 21474836480 insert_throws) (idle both)
      ≡ returned (t, rc_sysfail))
    × ((dyad_ucx_ep_cache_finalize (λ ep. true) (some t.ucx.ep_cache) t.worker).0.1.opened
        ≡ endpoint_of 2 21474836480 ∷ [])
unfolding find
serve_throws_example =
    serve_throws some (λ ep. true) both (asks 5 21474836480) (5 ∷ []) (21474836480 ∷ []) (5 ∷ [])
      refl refl refl refl ((λ h. absurd (omega (arith, h))), ((λ h. absurd (omega (arith, h))), tt))

no_text :
    serve some (record { message = refused none; file = none; calls = all_succeed }) (idle both)
    ≡ fault
unfolding program
no_text = refl

removed :
    (dyad_ucx_ep_cache_remove (λ ep. true) key7 both.cache both.worker).0.1.opened
    ≡ endpoint_of 1 key9 ∷ []
unfolding program
removed = refl
