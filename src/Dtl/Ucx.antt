-- ===== src/Dtl/Ucx.antt =====
-- The part of dyad/dtl/ucx_dtl.c that serves the requests of consumers: from the unpacking of a
-- request, over the endpoint, to the put into the memory of the consumer.
pub mod Requests
pub mod Endpoints
pub mod Links
pub mod Serves
pub mod Steps
pub mod Stale
pub mod SharedKey
pub mod Thrown
mod Tests
use dyad.Prelude.{
  ℕ, ◌+◌, ◌-◌, ◌*◌, ◌%◌, ◌^◌, Bool, true, false, not, List, [], ◌∷◌, Option, none, some,
  if◌then◌else◌,
}
use dyad.Prelude.Run
use dyad.Prelude.Run.{Run, ◌>>=◌, ◌>>◌}
use dyad.Core.Codes.{
  Rc, rc_ok, rc_sysfail, rc_badunpack, rc_bad_b64decode, rc_bad_comm_mode, rc_ucxcomm_fail,
  is_error,
}
use dyad.Dtl.EpCache.{
  Endpoint, EpCache, Worker, Connected, dyad_ucx_ep_cache_find, dyad_ucx_ep_cache_insert,
}

-- enum dyad_dtl_comm_mode
pub data CommMode : Type 0 where
  comm_none comm_recv comm_send : CommMode

-- struct dyad_dtl_ucx, less what is set once by `dyad_dtl_ucx_init`
pub record Ucx : Type 0 where
  pub comm_mode : CommMode
  pub remote_address : Option (List ℕ)
  pub ep : Option Endpoint
  pub ep_cache : EpCache
  pub comm_tag : ℕ
  pub consumer_conn_key : ℕ
  pub rkey_buf : Option (List ℕ)
  pub rkey : Option (List ℕ)
  pub cons_buf_ptr : ℕ

-- A put that UCX has done: over which endpoint, to what memory, with which key and data.
pub record Put : Type 0 where
  pub endpoint : Endpoint
  pub buffer : ℕ
  pub rkey : List ℕ
  pub bytes : List ℕ

-- `blocks` counts the blocks of `malloc` that are not freed, and `rkeys` the unpacked keys.
pub record Transport : Type 0 where
  pub ucx : Ucx
  pub worker : Worker
  pub blocks : ℕ
  pub rkeys : ℕ
  pub puts : List Put

-- What a request carries; `cons_buf` as `atoll` reads it, the address and the key in base64.
pub record Payload : Type 0 where
  pub tag_prod : ℕ
  pub cons_buf : ℕ
  pub pid : ℕ
  pub enc_addr : List ℕ
  pub enc_rkey : List ℕ

-- `flux_request_unpack` fails before or behind "cons_buf", or gives all.
pub data Unpacked : Type 0 where
  refused : Option ℕ → Unpacked
  unpacked : Payload → Unpacked

-- What the calls answer; `map_insert` is whether `insert_or_assign` does not throw.
pub record UcxCalls : Type 0 where
  pub malloc_address : Bool
  pub malloc_rkey : Bool
  pub ep_create : Bool
  pub map_insert : Bool
  pub rkey_unpack : Bool
  pub put : Bool
  pub wait : Bool

abbrev pub with_ucx : Ucx → Transport → Transport
with_ucx ucx t = record t { ucx = ucx }

-- pid << 32 | tag_cons, where tag_cons is 0
abbrev pub key_of : ℕ → ℕ
key_of pid = pid * 2 ^ 32 % 2 ^ 64

abbrev pub held : Option (List ℕ) → ℕ
held none = 0
held (some text) = 1

module _ (decode : List ℕ → Option (List ℕ)) where
  -- The key of an earlier request is freed.
  unfoldable pub unpack_rkey : UcxCalls → List ℕ → Transport → Transport × Rc
  unpack_rkey os enc_rkey t =
      let ucx = t.ucx in
      let freed : ℕ = t.blocks - held ucx.rkey_buf in
      if not os.malloc_rkey
      then (record t { ucx = record ucx { rkey_buf = none }; blocks = freed }, rc_sysfail)
      else elim (decode enc_rkey) [
        | none ↦
            (record t { ucx = record ucx { rkey_buf = none }; blocks = freed }, rc_bad_b64decode)
        | some rkey ↦
            (record t { ucx = record ucx { rkey_buf = some rkey }; blocks = freed + 1 }, rc_ok)
      ]

  -- A new block for the address, whatever the handle had.
  unfoldable pub unpack_address : UcxCalls → Payload → Transport → Transport × Rc
  unpack_address os p t =
      let ucx = t.ucx in
      let tagged : Ucx = record ucx {
        cons_buf_ptr = p.cons_buf;
        comm_tag = key_of p.tag_prod;
        consumer_conn_key = key_of p.pid;
      } in
      if not os.malloc_address
      then (with_ucx (record tagged { remote_address = none }) t, rc_sysfail)
      else elim (decode p.enc_addr) [
        | none ↦ (with_ucx (record tagged { remote_address = none }) t, rc_bad_b64decode)
        | some addr ↦ (
          record t { ucx = record tagged { remote_address = some addr }; blocks = t.blocks + 1 },
          rc_ok,
        )
      ]

  abbrev pub keyed : UcxCalls → Payload → Transport × Rc → Transport × Rc
  keyed os p (t, rc) = if is_error rc then (t, rc) else unpack_rkey os p.enc_rkey t

  -- `atoll` reads the text of "cons_buf" before the failure is tested.
  unfoldable pub rpc_unpack : UcxCalls → Unpacked → Transport → Run (Transport × Rc)
  rpc_unpack os (refused none) t = Run.fault
  rpc_unpack os (refused (some tag_val)) t = Run.returned (t, rc_badunpack)
  rpc_unpack os (unpacked p) t = Run.returned (keyed os p (unpack_address os p t))

abbrev pub address_of : Ucx → List ℕ
address_of ucx = elim ucx.remote_address [ none ↦ [] | some addr ↦ addr ]

abbrev pub of_connected : Transport → Connected × Rc → Transport × Rc
of_connected t (c, rc) =
    let ucx = t.ucx in
    (record t { worker = c.worker; ucx = record ucx { ep = c.ep; ep_cache = c.cache } }, rc)

-- What the search answers; a miss, or any other failure of it, goes to the insertion.
abbrev pub by_search : UcxCalls → Transport → Option Endpoint × Rc → Transport × Rc
by_search os t (ep, rc) =
    let ucx = t.ucx in
    let c : Connected = record { worker = t.worker; cache = ucx.ep_cache; ep = ep } in
    if is_error rc
    then of_connected t (
        dyad_ucx_ep_cache_insert os.ep_create os.map_insert ucx.consumer_conn_key (address_of ucx)
          c)
    else of_connected t (c, rc_ok)

unfoldable pub connect_sender : UcxCalls → Transport → Transport × Rc
connect_sender os t =
    let ucx = t.ucx in
    by_search os t (dyad_ucx_ep_cache_find ucx.consumer_conn_key ucx.ep_cache ucx.ep)

unfoldable pub establish_connection : UcxCalls → Transport → Transport × Rc
establish_connection os t =
    let ucx = t.ucx in
    elim ucx.comm_mode [
      | comm_send ↦ connect_sender os t
      | comm_recv ↦ (t, rc_ok)
      | comm_none ↦ (t, rc_bad_comm_mode)
    ]

-- `ucx_send_no_wait` over the endpoint and the key; the answer is whether the put is under way.
abbrev pub put_over :
    UcxCalls → Option Endpoint → Option (List ℕ) → List ℕ → Transport → Transport × Bool
put_over os none rkey_buf buf t = (t, false)
put_over os (some ep) none buf t = (t, false)
put_over os (some ep) (some rkey) buf t =
    let ucx = t.ucx in
    let keyed : Transport = record t {
      ucx = record ucx { rkey = some rkey };
      rkeys = t.rkeys + 1;
    } in
    let done : Put = record {
      endpoint = ep;
      buffer = ucx.cons_buf_ptr;
      rkey = rkey;
      bytes = buf;
    } in
    if not os.rkey_unpack
    then (t, false)
    else if not os.put
    then (keyed, false)
    else if os.wait
    then (record keyed { puts = done ∷ t.puts }, true)
    else (keyed, false)

abbrev pub of_put : Transport × Bool → Transport × Rc
of_put (t, true) = (t, rc_ok)
of_put (t, false) = (t, rc_ucxcomm_fail)

unfoldable pub send : UcxCalls → List ℕ → Transport → Transport × Rc
send os buf t = let ucx = t.ucx in of_put (put_over os ucx.ep ucx.rkey_buf buf t)

-- The address is not freed: the map of endpoints is taken to use it.
unfoldable pub close_connection : Transport → Transport × Rc
close_connection t =
    let ucx = t.ucx in
    elim ucx.comm_mode [
      | comm_send ↦ (
        record t {
          rkeys = t.rkeys - held ucx.rkey;
          blocks = t.blocks - held ucx.rkey_buf;
          ucx = record ucx {
            rkey = none;
            rkey_buf = none;
            ep = none;
            remote_address = none;
            comm_tag = 0;
          };
        },
        rc_ok,
      )
      | comm_recv ↦ (record t { ucx = record ucx { comm_tag = 0 } }, rc_ok)
      | comm_none ↦ (t, rc_bad_comm_mode)
    ]
