-- ===== src/Dtl/Ucx/Stale.antt =====
-- What a failed put leaves for the next request.
use dyad.Prelude.{ℕ, ◌+◌, ◌-◌, ◌≡◌, refl, ap, ◌∙◌, true, false, List, ◌∷◌, Option, some}
use dyad.Prelude.Run.{returned}
use dyad.Core.Codes.{rc_ok, rc_ucxcomm_fail}
use dyad.Dtl.EpCache.{Endpoint, Connected, find, dyad_ucx_ep_cache_insert}
use dyad.Dtl.Ucx.{
  comm_send, Transport, Payload, unpacked, UcxCalls, key_of, unpack_rkey, unpack_address,
  of_connected, connect_sender, establish_connection, send, close_connection,
}
use dyad.Dtl.Ucx.Requests.{respond_with, serve}
use dyad.Dtl.Ucx.Links.{Idle, idle, asking, behind, establish_hit}
use dyad.Dtl.Ucx.Steps.{all_succeed, addressed, with_key, serves}

abbrev pub put_fails : UcxCalls
put_fails = record all_succeed { put = false }

-- A request is unpacked, and the put of it has failed.
abbrev left_by : Idle → Payload → List ℕ → List ℕ → Endpoint → Transport
left_by s p addr rkey ep = record {
  ucx = record {
    comm_mode = comm_send;
    remote_address = some addr;
    ep = some ep;
    ep_cache = s.cache;
    comm_tag = key_of p.tag_prod;
    consumer_conn_key = key_of p.pid;
    rkey_buf = some rkey;
    rkey = some rkey;
    cons_buf_ptr = p.cons_buf;
  };
  worker = s.worker;
  blocks = s.blocks + 1 - 0 + 1;
  rkeys = s.rkeys + 1;
  puts = s.puts;
}

found_old :
    (key : ℕ) (addr : List ℕ) (c : Connected) (ep : Endpoint)
    → find key c.cache ≡ some ep
    → dyad_ucx_ep_cache_insert true true key addr c ≡ (c, rc_ok)
found_old key addr c ep hit = rw (dyad_ucx_ep_cache_insert, hit) refl

module _ (decode : List ℕ → Option (List ℕ)) where
  -- The first put fails.
  fails :
      (s : Idle) (p : Payload) (bytes addr rkey : List ℕ) (ep : Endpoint)
      → find (key_of p.pid) s.cache ≡ some ep
      → respond_with put_fails bytes (asking s p addr rkey)
        ≡ (left_by s p addr rkey ep, rc_ucxcomm_fail)
  unfolding respond_with send
  fails s p bytes addr rkey ep hit =
      ap (behind bytes put_fails) (establish_hit s p put_fails addr rkey ep hit)

  -- The second request finds an endpoint in the handle.
  abbrev second :
      Idle → Payload → List ℕ → List ℕ → Endpoint → Payload → List ℕ → List ℕ → Transport
  second s p addr rkey ep p' addr' rkey' =
      with_key rkey' (addressed p' addr' (left_by s p addr rkey ep))

  keeps_old :
      (s : Idle) (p : Payload) (addr rkey : List ℕ) (ep : Endpoint) (p' : Payload)
      (addr' rkey' : List ℕ) (ep' : Endpoint)
      → find (key_of p'.pid) s.cache ≡ some ep'
      → establish_connection all_succeed (second s p addr rkey ep p' addr' rkey')
        ≡ (second s p addr rkey ep p' addr' rkey', rc_ok)
  unfolding establish_connection connect_sender
  keeps_old s p addr rkey ep p' addr' rkey' ep' hit =
      let t = second s p addr rkey ep p' addr' rkey' in
      let c : Connected = record { worker = s.worker; cache = s.cache; ep = some ep } in
      ap (of_connected t) (found_old (key_of p'.pid) addr' c ep' hit)

  -- The address and the key of two requests are decoded, the map has an endpoint for the consumer of
  -- each, and the transport has no connection. When the put of the first request fails, and every call
  -- of the second succeeds, the second is answered DYAD_RC_OK, and its data are put over the endpoint
  -- of the first, whatever the map has for the second.
  pub serve_stale :
      (s : Idle) (p p' : Payload) (bytes bytes' addr addr' rkey rkey' : List ℕ) (ep ep' : Endpoint)
      → decode p.enc_addr ≡ some addr
      → decode p.enc_rkey ≡ some rkey
      → decode p'.enc_addr ≡ some addr'
      → decode p'.enc_rkey ≡ some rkey'
      → find (key_of p.pid) s.cache ≡ some ep
      → find (key_of p'.pid) s.cache ≡ some ep'
      → (t t' : Transport) × (serve decode
            (record { message = unpacked p; file = some bytes; calls = put_fails })
            (idle s)
          ≡ returned (t, rc_ucxcomm_fail))
        × (serve decode
              (record { message = unpacked p'; file = some bytes'; calls = all_succeed })
              t
            ≡ returned (t', rc_ok))
        × (t'.puts
            ≡ record { endpoint = ep; buffer = p'.cons_buf; rkey = rkey'; bytes = bytes' } ∷ s.puts)
  unfolding respond_with send close_connection unpack_address unpack_rkey
  serve_stale s p p' bytes bytes' addr addr' rkey rkey' ep ep' e k e' k' hit hit' = (
    left_by s p addr rkey ep,
    _,
    serves decode put_fails p bytes addr rkey (idle s) refl refl e k
        ∙ ap returned (fails s p bytes addr rkey ep hit),
    serves decode all_succeed p' bytes' addr' rkey' (left_by s p addr rkey ep) refl refl e' k'
        ∙ ap (λ made. returned (behind bytes' all_succeed made))
            (keeps_old s p addr rkey ep p' addr' rkey' ep' hit'),
    refl,
  )
