-- ===== src/Dtl/Ucx/Links.antt =====
-- How a request that is unpacked gets its endpoint, from the map or a new one.
use dyad.Prelude.{
  ℕ, ◌+◌, ◌-◌, ◌≡◌, refl, ap, ◌∙◌, Bool, true, false, List, ◌∷◌, none, some, if◌then◌else◌,
}
use dyad.Core.Codes.{Rc, rc_ok, rc_sysfail, rc_notfound, rc_ucxcomm_fail, is_error}
use dyad.Dtl.EpCache.{
  Endpoint, EpCache, Worker, Connected, find, connected, ucx_connect, dyad_ucx_ep_cache_find,
  dyad_ucx_ep_cache_insert,
}
use dyad.Dtl.Ucx.{
  comm_send, Put, Transport, Payload, UcxCalls, key_of, of_connected, by_search, connect_sender,
  establish_connection, send,
}
use dyad.Dtl.Ucx.Requests.{closed_behind}

-- A sender between two requests: what `dyad_dtl_ucx_init` and `dyad_dtl_ucx_close_connection` leave.
pub record Idle : Type 0 where
  pub cache : EpCache
  pub worker : Worker
  pub key : ℕ
  pub buffer : ℕ
  pub blocks : ℕ
  pub rkeys : ℕ
  pub puts : List Put

abbrev pub idle : Idle → Transport
idle s = record {
  ucx = record {
    comm_mode = comm_send;
    remote_address = none;
    ep = none;
    ep_cache = s.cache;
    comm_tag = 0;
    consumer_conn_key = s.key;
    rkey_buf = none;
    rkey = none;
    cons_buf_ptr = s.buffer;
  };
  worker = s.worker;
  blocks = s.blocks;
  rkeys = s.rkeys;
  puts = s.puts;
}

-- A request is unpacked.
abbrev pub asking : Idle → Payload → List ℕ → List ℕ → Transport
asking s p addr rkey = record {
  ucx = record {
    comm_mode = comm_send;
    remote_address = some addr;
    ep = none;
    ep_cache = s.cache;
    comm_tag = key_of p.tag_prod;
    consumer_conn_key = key_of p.pid;
    rkey_buf = some rkey;
    rkey = none;
    cons_buf_ptr = p.cons_buf;
  };
  worker = s.worker;
  blocks = s.blocks + 1 - 0 + 1;
  rkeys = s.rkeys;
  puts = s.puts;
}

-- It has its endpoint.
abbrev pub linked : Idle → Payload → List ℕ → List ℕ → Endpoint → Transport
linked s p addr rkey ep =
    let t = asking s p addr rkey in
    let ucx = t.ucx in record t { ucx = record ucx { ep = some ep } }

-- How a request goes on behind the connection.
abbrev pub behind : List ℕ → UcxCalls → Transport × Rc → Transport × Rc
behind bytes os made = if is_error made.1 then made else closed_behind (send os bytes made.0)

module _ (s : Idle) (p : Payload) where
  -- The endpoint that is there, or a new one.
  pub establish_hit :
      (os : UcxCalls) (addr rkey : List ℕ) (ep : Endpoint)
      → find (key_of p.pid) s.cache ≡ some ep
      → establish_connection os (asking s p addr rkey) ≡ (linked s p addr rkey ep, rc_ok)
  unfolding establish_connection connect_sender find
  establish_hit os addr rkey ep hit = rw (establish_connection, connect_sender, hit) refl

  abbrev pub made_of : List ℕ → Endpoint
  made_of addr = let worker = s.worker in record { number = worker.next; address = addr }

  abbrev pub extended : List ℕ → Idle
  extended addr =
      let worker = s.worker in
      record s {
        cache = (key_of p.pid, made_of addr) ∷ s.cache;
        worker = record { opened = made_of addr ∷ worker.opened; next = worker.next + 1 };
      }

  -- The endpoint is there, and not in the map.
  abbrev pub unmapped : List ℕ → Idle
  unmapped addr = let g = extended addr in record g { cache = s.cache }

  created :
      (creates stores : Bool) (addr rkey : List ℕ)
      → of_connected
          (asking s p addr rkey)
          (connected stores (key_of p.pid) s.cache (ucx_connect creates addr none s.worker))
        ≡ (if creates
            then (if stores
                then (linked (extended addr) p addr rkey (made_of addr), rc_ok)
                else (linked (unmapped addr) p addr rkey (made_of addr), rc_sysfail))
            else (asking s p addr rkey, rc_ucxcomm_fail))
  created true true addr rkey = refl
  created true false addr rkey = refl
  created false stores addr rkey = refl

  missed :
      find (key_of p.pid) s.cache ≡ none
      → dyad_ucx_ep_cache_find (key_of p.pid) s.cache none ≡ (none, rc_notfound)
  missed miss = rw (dyad_ucx_ep_cache_find, miss) refl

  inserted :
      (os : UcxCalls) (addr : List ℕ) (c : Connected)
      → find (key_of p.pid) c.cache ≡ none
      → dyad_ucx_ep_cache_insert os.ep_create os.map_insert (key_of p.pid) addr c
        ≡ connected os.map_insert
            (key_of p.pid)
            c.cache
            (ucx_connect os.ep_create addr c.ep c.worker)
  inserted os addr c miss = rw (dyad_ucx_ep_cache_insert, miss) refl

  pub establish_miss :
      (os : UcxCalls) (addr rkey : List ℕ)
      → find (key_of p.pid) s.cache ≡ none
      → establish_connection os (asking s p addr rkey) ≡ (
          if os.ep_create
          then (if os.map_insert
              then (linked (extended addr) p addr rkey (made_of addr), rc_ok)
              else (linked (unmapped addr) p addr rkey (made_of addr), rc_sysfail))
          else (asking s p addr rkey, rc_ucxcomm_fail))
  unfolding establish_connection connect_sender
  establish_miss os addr rkey miss =
      let t = asking s p addr rkey in
      let c : Connected = record { worker = s.worker; cache = s.cache; ep = none } in
      ap (by_search os t) (missed miss)
      ∙ ap (of_connected t) (inserted os addr c miss)
      ∙ created os.ep_create os.map_insert addr rkey
