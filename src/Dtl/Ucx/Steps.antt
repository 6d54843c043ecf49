-- ===== src/Dtl/Ucx/Steps.antt =====
-- What a request comes to when its message is good and its memory is there.
use dyad.Prelude.{ℕ, ◌+◌, ◌-◌, ◌≡◌, refl, ap, ◌∙◌, true, List, Option, some}
use dyad.Prelude.Run.{returned}
use dyad.Core.Codes.{rc_ok}
use dyad.Dtl.EpCache.{Endpoint}
use dyad.Dtl.Ucx.{
  Put, Transport, Payload, unpacked, UcxCalls, key_of, unpack_rkey, unpack_address, rpc_unpack,
  keyed, held,
}
use dyad.Dtl.Ucx.Requests.{Request, respond_with, answered, serve}

abbrev pub all_succeed : UcxCalls
all_succeed = record {
  malloc_address = true;
  malloc_rkey = true;
  ep_create = true;
  map_insert = true;
  rkey_unpack = true;
  put = true;
  wait = true;
}

abbrev pub put_of : Payload → List ℕ → List ℕ → Endpoint → Put
put_of p bytes rkey ep = record { endpoint = ep; buffer = p.cons_buf; rkey = rkey; bytes = bytes }

abbrev pub addressed : Payload → List ℕ → Transport → Transport
addressed p addr t =
    let ucx = t.ucx in
    record t {
      ucx = record ucx {
        cons_buf_ptr = p.cons_buf;
        comm_tag = key_of p.tag_prod;
        consumer_conn_key = key_of p.pid;
        remote_address = some addr;
      };
      blocks = t.blocks + 1;
    }

abbrev pub with_key : List ℕ → Transport → Transport
with_key rkey t =
    let ucx = t.ucx in
    record t {
      ucx = record ucx { rkey_buf = some rkey };
      blocks = t.blocks - held ucx.rkey_buf + 1;
    }

module _ (decode : List ℕ → Option (List ℕ)) where
  addresses :
      (p : Payload) (addr : List ℕ) (t : Transport)
      → decode p.enc_addr ≡ some addr
      → unpack_address decode all_succeed p t ≡ (addressed p addr t, rc_ok)
  unfolding unpack_address
  addresses p addr t e = rw (unpack_address, e) refl

  keys :
      (enc_rkey rkey : List ℕ) (t : Transport)
      → decode enc_rkey ≡ some rkey
      → unpack_rkey decode all_succeed enc_rkey t ≡ (with_key rkey t, rc_ok)
  unfolding unpack_rkey
  keys enc_rkey rkey t k = rw (unpack_rkey, k) refl

  -- What a request with a good message and file comes to.
  pub serves :
      (os : UcxCalls) (p : Payload) (bytes addr rkey : List ℕ) (t : Transport)
      → unpack_address decode os p ≡ unpack_address decode all_succeed p
      → unpack_rkey decode os p.enc_rkey ≡ unpack_rkey decode all_succeed p.enc_rkey
      → decode p.enc_addr ≡ some addr
      → decode p.enc_rkey ≡ some rkey
      → serve decode (record { message = unpacked p; file = some bytes; calls = os }) t
        ≡ returned (respond_with os bytes (with_key rkey (addressed p addr t)))
  unfolding serve rpc_unpack
  serves os p bytes addr rkey t same same' e k =
      let r : Request = record { message = unpacked p; file = some bytes; calls = os } in
      ap (λ u. returned (answered r (keyed decode os p (u t)))) same
      ∙ ap (λ u. returned (answered r (keyed decode os p u))) (addresses p addr t e)
      ∙ ap (λ u. returned (answered r (u (addressed p addr t)))) same'
      ∙ ap (λ u. returned (answered r u)) (keys p.enc_rkey rkey (addressed p addr t) k)
