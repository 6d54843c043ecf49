-- ===== src/Dtl/Ucx/Endpoints.antt =====
-- The open endpoints are those of the map, so that the finalization closes them all.
use dyad.Prelude.{
  ℕ, ◌≡◌, refl, ap, ◌∙◌, Bool, true, false, not, List, [], ◌∷◌, map, Option, none, some, ◌==◌,
  arith, if-lem, Option-lem,
}
use dyad.Prelude.Run.{Run, returned, ◌>>=◌}
use dyad.Core.Codes.{Rc, rc_badunpack, is_error}
use dyad.Dtl.EpCache.{
  Endpoint, EpCache, Worker, Connected, ucx_connect, closed, find, connected, disconnect_all,
  dyad_ucx_ep_cache_find, dyad_ucx_ep_cache_insert, dyad_ucx_ep_cache_finalize,
}
use dyad.Dtl.Ucx.{
  CommMode, comm_send, comm_recv, comm_none, Transport, Payload, Unpacked, refused, unpacked,
  UcxCalls, unpack_rkey, unpack_address, rpc_unpack, address_of, connect_sender,
  establish_connection, put_over, of_put, send, close_connection, keyed,
}
use dyad.Dtl.Ucx.Requests.{Request, closed_behind, respond_with, answered, serve, serve_all}

abbrev pub endpoints : EpCache → List Endpoint
endpoints cache = map (λ entry. entry.1) cache

-- The worker has the endpoints of the map and no others.
abbrev pub Owned : Worker → EpCache → Type 0
Owned worker cache = worker.opened ≡ endpoints cache

abbrev pub OwnedBy : Transport → Type 0
OwnedBy t = let ucx = t.ucx in Owned t.worker ucx.ep_cache

disconnect_all_lem :
    (closes : Endpoint → Bool) (cache : EpCache) (worker : Worker)
    → Owned worker cache
    → (disconnect_all closes cache worker).opened ≡ []
unfolding disconnect_all closed
disconnect_all_lem closes [] worker owned = owned
disconnect_all_lem closes ((key, ep) ∷ cache) worker owned =
    let same : (ep.number == ep.number) ≡ true = ground arith in
    let gone : Worker = record worker { opened = closed ep.number worker.opened } in
    let rest : (disconnect_all closes cache gone).opened ≡ [] =
      disconnect_all_lem closes cache gone (ap (closed ep.number) owned ∙ rw (closed, same) refl) in
    if-lem (λ (r : Worker × Rc). (disconnect_all closes cache r.0).opened ≡ []) (closes ep)
      (λ _. rest) (λ _. rest)

connected-Owned :
    (creates stores : Bool) (key : ℕ) (cache : EpCache) (addr : List ℕ) (ep : Option Endpoint)
    (worker : Worker)
    → stores ≡ true
    → Owned worker cache
    → let r = (connected stores key cache (ucx_connect creates addr ep worker)).0 in
      Owned r.worker r.cache
connected-Owned true true key cache addr ep worker no_throw owned =
    let made : Endpoint = record { number = worker.next; address = addr } in
    ap (λ l. made ∷ l) owned
connected-Owned true false key cache addr ep worker no_throw owned = absurd (cc)
connected-Owned false stores key cache addr none worker no_throw owned = owned
connected-Owned false stores key cache addr (some ep) worker no_throw owned = owned

abbrev OwnedWith : Connected × Rc → Type 0
OwnedWith r = let c = r.0 in Owned c.worker c.cache

dyad_ucx_ep_cache_insert-Owned :
    (creates stores : Bool) (key : ℕ) (addr : List ℕ) (c : Connected)
    → stores ≡ true
    → Owned c.worker c.cache
    → OwnedWith (dyad_ucx_ep_cache_insert creates stores key addr c)
dyad_ucx_ep_cache_insert-Owned creates stores key addr c no_throw owned =
    Option-lem OwnedWith (find key c.cache)
      (λ _. connected-Owned creates stores key c.cache addr c.ep c.worker no_throw owned)
      (λ ep _. owned)

abbrev Keeps : Transport × Rc → Type 0
Keeps r = OwnedBy r.0

connect_sender-Owned :
    (os : UcxCalls) (t : Transport) → os.map_insert ≡ true → OwnedBy t → Keeps (connect_sender os t)
unfolding connect_sender
connect_sender-Owned os t no_throw owned =
    let ucx = t.ucx in
    let found = dyad_ucx_ep_cache_find ucx.consumer_conn_key ucx.ep_cache ucx.ep in
    if-lem Keeps (is_error found.1)
      (λ _.
        dyad_ucx_ep_cache_insert-Owned os.ep_create os.map_insert ucx.consumer_conn_key
          (address_of ucx) (record { worker = t.worker; cache = ucx.ep_cache; ep = found.0 })
          no_throw owned)
      (λ _. owned)

-- What holds in each mode.
pub mode-lem {ℓ κ} :
    {A : Type ℓ} (P : A → Type κ) (mode : CommMode) {x y z : A}
    → P x
    → P y
    → P z
    → P (elim mode [ comm_send ↦ x | comm_recv ↦ y | comm_none ↦ z ])
mode-lem P comm_send h k l = h
mode-lem P comm_recv h k l = k
mode-lem P comm_none h k l = l

establish_connection-Owned :
    (os : UcxCalls) (t : Transport)
    → os.map_insert ≡ true
    → OwnedBy t
    → Keeps (establish_connection os t)
unfolding establish_connection
establish_connection-Owned os t no_throw owned =
    let ucx = t.ucx in
    mode-lem Keeps ucx.comm_mode (connect_sender-Owned os t no_throw owned) owned owned

put_over-Owned :
    (os : UcxCalls) (ep : Option Endpoint) (rkey_buf : Option (List ℕ)) (buf : List ℕ)
    (t : Transport)
    → OwnedBy t
    → OwnedBy (put_over os ep rkey_buf buf t).0
put_over-Owned os none rkey_buf buf t owned = owned
put_over-Owned os (some ep) none buf t owned = owned
put_over-Owned os (some ep) (some rkey) buf t owned =
    let P : Transport × Bool → Type 0 = λ r. OwnedBy r.0 in
    if-lem P (not os.rkey_unpack) (λ _. owned)
      (λ _. if-lem P (not os.put) (λ _. owned) (λ _. if-lem P os.wait (λ _. owned) (λ _. owned)))

of_put-Owned : (q : Transport × Bool) → OwnedBy q.0 → Keeps (of_put q)
of_put-Owned (t, true) owned = owned
of_put-Owned (t, false) owned = owned

send-Owned : (os : UcxCalls) (buf : List ℕ) (t : Transport) → OwnedBy t → Keeps (send os buf t)
unfolding send
send-Owned os buf t owned =
    let ucx = t.ucx in
    of_put-Owned (put_over os ucx.ep ucx.rkey_buf buf t)
      (put_over-Owned os ucx.ep ucx.rkey_buf buf t owned)

close_connection-Owned : (t : Transport) → OwnedBy t → Keeps (close_connection t)
unfolding close_connection
close_connection-Owned t owned = let ucx = t.ucx in mode-lem Keeps ucx.comm_mode owned owned owned

closed_behind-Owned : (r : Transport × Rc) → Keeps r → Keeps (closed_behind r)
closed_behind-Owned (t, rc) kept =
    if-lem Keeps (is_error rc) (λ _. kept) (λ _. close_connection-Owned t kept)

respond_with-Owned :
    (os : UcxCalls) (bytes : List ℕ) (t : Transport)
    → os.map_insert ≡ true
    → OwnedBy t
    → Keeps (respond_with os bytes t)
unfolding respond_with
respond_with-Owned os bytes t no_throw owned =
    let made = establish_connection os t in
    let kept = establish_connection-Owned os t no_throw owned in
    if-lem Keeps (is_error made.1) (λ _. kept)
      (λ _. closed_behind-Owned (send os bytes made.0) (send-Owned os bytes made.0 kept))

-- `insert_or_assign` does not throw in the serving of the request.
abbrev NeverThrows : Request → Type 0
NeverThrows r = let os = r.calls in os.map_insert ≡ true

answered-Owned : (r : Request) (u : Transport × Rc) → NeverThrows r → Keeps u → Keeps (answered r u)
answered-Owned r u no_throw kept =
    if-lem Keeps (is_error u.1) (λ _. kept)
      (λ _.
        Option-lem Keeps r.file (λ _. kept)
          (λ bytes _. respond_with-Owned r.calls bytes u.0 no_throw kept))

module _ (decode : List ℕ → Option (List ℕ)) where
  unpack_rkey-Owned :
      (os : UcxCalls) (enc_rkey : List ℕ) (t : Transport)
      → OwnedBy t
      → Keeps (unpack_rkey decode os enc_rkey t)
  unfolding unpack_rkey
  unpack_rkey-Owned os enc_rkey t owned =
      if-lem Keeps (not os.malloc_rkey) (λ _. owned)
        (λ _. Option-lem Keeps (decode enc_rkey) (λ _. owned) (λ rkey _. owned))

  unpack_address-Owned :
      (os : UcxCalls) (p : Payload) (t : Transport)
      → OwnedBy t
      → Keeps (unpack_address decode os p t)
  unfolding unpack_address
  unpack_address-Owned os p t owned =
      if-lem Keeps (not os.malloc_address) (λ _. owned)
        (λ _. Option-lem Keeps (decode p.enc_addr) (λ _. owned) (λ addr _. owned))

  -- The text of "cons_buf" is there when a message is refused.
  abbrev pub IsReadable : Unpacked → Type 0
  IsReadable (refused none) = ⊥
  IsReadable (refused (some tag_val)) = Unit {0}
  IsReadable (unpacked p) = Unit {0}

  abbrev pub AllReadable : List Request → Type 0
  AllReadable [] = Unit {0}
  AllReadable (r ∷ requests) = IsReadable r.message × AllReadable requests

  abbrev pub AllNeverThrow : List Request → Type 0
  AllNeverThrow [] = Unit {0}
  AllNeverThrow (r ∷ requests) = NeverThrows r × AllNeverThrow requests

  abbrev Returns : Run (Transport × Rc) → Type 0
  Returns m = (u : Transport × Rc) × (m ≡ returned u) × OwnedBy u.0

  rpc_unpack-Owned :
      (os : UcxCalls) (message : Unpacked) (t : Transport)
      → IsReadable message
      → OwnedBy t
      → Returns (rpc_unpack decode os message t)
  unfolding rpc_unpack
  rpc_unpack-Owned os (refused none) t readable owned = absurd readable
  rpc_unpack-Owned os (refused (some tag_val)) t readable owned = ((t, rc_badunpack), refl, owned)
  rpc_unpack-Owned os (unpacked p) t readable owned =
      let addressed = unpack_address decode os p t in
      let kept = unpack_address-Owned os p t owned in
      (
        keyed decode os p addressed,
        refl,
        if-lem Keeps (is_error addressed.1) (λ _. kept)
            (λ _. unpack_rkey-Owned os p.enc_rkey addressed.0 kept),
      )

  serve-Owned :
      (r : Request) (t : Transport)
      → IsReadable r.message
      → NeverThrows r
      → OwnedBy t
      → Returns (serve decode r t)
  unfolding serve
  serve-Owned r t readable no_throw owned =
      let (u, unpacks, kept) = rpc_unpack-Owned r.calls r.message t readable owned in
      (
        answered r u,
        ap (λ m. m >>= λ v. returned (answered r v)) unpacks,
        answered-Owned r u no_throw kept,
      )

  -- From a transport whose worker has the endpoints of the map and no others, any list of requests is
  -- served, whatever their calls answer, where the message of each has its "cons_buf" at least when
  -- it is refused, and the insertion into the map does not throw in any. Behind them the same is true, and dyad_ucx_ep_cache_finalize leaves no endpoint open,
  -- whatever the closing of each answers.
  pub serve_all-Owned :
      (closes : Endpoint → Bool) (requests : List Request) (t : Transport)
      → AllReadable requests
      → AllNeverThrow requests
      → OwnedBy t
      → (t' : Transport) × (serve_all decode requests t ≡ returned t')
        × OwnedBy t'
        × ((dyad_ucx_ep_cache_finalize closes (some t'.ucx.ep_cache) t'.worker).0.1.opened ≡ [])
  unfolding serve_all
  serve_all-Owned closes [] t readable no_throw owned =
      let ucx = t.ucx in (t, refl, owned, disconnect_all_lem closes ucx.ep_cache t.worker owned)
  serve_all-Owned closes (r ∷ requests) t (readable, rest) (no_throw, no_throws) owned =
      let (u, serves, kept) = serve-Owned r t readable no_throw owned in
      let (t', runs, owned', closes) = serve_all-Owned closes requests u.0 rest no_throws kept in
      (t', rw (serve_all, serves) runs, owned', closes)
