-- ===== src/Dtl/Ucx/Serves.antt =====
-- A request on a transport with no connection.
use dyad.Prelude.{
  ℕ, ◌+◌, ◌-◌, ◌==◌, ◌≡◌, refl, ap, sym, subst, ◌∙◌, ◌⊎◌, inl, inr, Bool, true, not, List, ◌∷◌,
  Option, none, some, arith, if-lem, Option-lem, Option-cases,
}
use dyad.Prelude.Run.{returned}
use dyad.Core.Codes.{Rc, rc_ok, is_error}
use dyad.Dtl.EpCache.{Endpoint, EpCache, find}
use dyad.Dtl.Ucx.{
  Put, Transport, Payload, unpacked, UcxCalls, key_of, unpack_rkey, unpack_address, rpc_unpack,
  of_put, send, close_connection, keyed,
}
use dyad.Dtl.Ucx.Requests.{Request, closed_behind, respond_with, answered, serve}
use dyad.Dtl.Ucx.Links.{
  Idle, idle, asking, linked, behind, establish_hit, made_of, extended, establish_miss,
}

-- The address of each consumer, by its key, and of the endpoints of the map.
abbrev pub Known : (ℕ → List ℕ) → EpCache → Type 0
Known address cache = (key : ℕ) (e : Endpoint) → find key cache ≡ some e → e.address ≡ address key

pub Known-extend :
    (address : ℕ → List ℕ) (key : ℕ) (e : Endpoint) (cache : EpCache)
    → e.address ≡ address key
    → Known address cache
    → Known address ((key, e) ∷ cache)
unfolding find
Known-extend address key e cache own known k e' =
    if-lem (λ o. o ≡ some e' → e'.address ≡ address k) (key == k)
      (λ same h.
        let keys : key ≡ k = ground arith in
        let found : e ≡ e' = ap (λ o. elim o [ none ↦ e | some a ↦ a ]) h in
        subst (λ a. a.address ≡ address k) found (own ∙ ap address keys))
      (λ differs h. known k e' h)

module _ (decode : List ℕ → Option (List ℕ)) (address : ℕ → List ℕ) (s : Idle) (p : Payload)
    (bytes : List ℕ) where
  -- An error, and nothing is put; or DYAD_RC_OK, and the data are put over an endpoint with the address
  -- of the consumer into its memory, with its key. Then there is no connection, and a block more.
  abbrev pub Served : Transport × Rc → Type 0
  Served r =
      ((is_error r.1 ≡ true) × (r.0.puts ≡ s.puts) × Known address r.0.ucx.ep_cache)
      ⊎ ((r.1 ≡ rc_ok)
          × (ep : Endpoint) × (rkey : List ℕ) × (s' : Idle) × (decode p.enc_rkey ≡ some rkey)
          × (ep.address ≡ address (key_of p.pid))
          × (r.0 ≡ idle s')
          × (s'.puts
              ≡ record { endpoint = ep; buffer = p.cons_buf; rkey = rkey; bytes = bytes } ∷ s.puts)
          × Known address s'.cache
          × (s'.blocks ≡ s.blocks + 1)
          × (s'.rkeys ≡ s.rkeys))

  -- With the endpoint there, the data are put or not.
  linked-Served :
      (os : UcxCalls) (s₁ : Idle) (addr rkey : List ℕ) (ep : Endpoint)
      → decode p.enc_rkey ≡ some rkey
      → ep.address ≡ address (key_of p.pid)
      → Known address s₁.cache
      → s₁.puts ≡ s.puts
      → s₁.blocks ≡ s.blocks
      → s₁.rkeys ≡ s.rkeys
      → Served (closed_behind (send os bytes (linked s₁ p addr rkey ep)))
  unfolding close_connection send
  linked-Served os s₁ addr rkey ep decodes own known same_puts same_blocks same_rkeys =
      let P : Transport × Bool → Type 0 = λ q. Served (closed_behind (of_put q)) in
      let put : Put = record { endpoint = ep; buffer = p.cons_buf; rkey = rkey; bytes = bytes } in
      if-lem P (not os.rkey_unpack) (λ _. inl (refl, same_puts, known))
        (λ _.
          if-lem P (not os.put) (λ _. inl (refl, same_puts, known))
            (λ _.
              if-lem P os.wait
                (λ _. inr (
                  refl,
                  ep,
                  rkey,
                  record {
                    cache = s₁.cache;
                    worker = s₁.worker;
                    key = key_of p.pid;
                    buffer = p.cons_buf;
                    blocks = s₁.blocks + 1 - 0 + 1 - 1;
                    rkeys = s₁.rkeys + 1 - 1;
                    puts = put ∷ s₁.puts;
                  },
                  decodes,
                  own,
                  refl,
                  ap (λ l. put ∷ l) same_puts,
                  known,
                  omega (arith, same_blocks),
                  omega (arith, same_rkeys),
                ))
                (λ _. inl (refl, same_puts, known))))

  -- From a request that is unpacked.
  asking-Served :
      (os : UcxCalls) (addr rkey : List ℕ)
      → decode p.enc_rkey ≡ some rkey
      → addr ≡ address (key_of p.pid)
      → Known address s.cache
      → Served (respond_with os bytes (asking s p addr rkey))
  unfolding respond_with
  asking-Served os addr rkey decodes own known =
      let P : Transport × Rc → Type 0 = λ made. Served (behind bytes os made) in
      elim (Option-cases (find (key_of p.pid) s.cache)) [
        | inr (ep, hit) ↦ subst P (sym (establish_hit s p os addr rkey ep hit)) (
            linked-Served os s addr rkey ep decodes (known (key_of p.pid) ep hit) known refl refl
              refl)
        | inl miss ↦ subst P (sym (establish_miss s p os addr rkey miss)) (
            if-lem P os.ep_create
              (λ _.
                if-lem P os.map_insert
                  (λ _.
                    linked-Served os (extended s p addr) addr rkey (made_of s p addr) decodes own
                      (Known-extend address (key_of p.pid) (made_of s p addr) s.cache own known)
                      refl refl refl)
                  (λ _. inl (refl, refl, known)))
              (λ _. inl (refl, refl, known)))
      ]

  -- On a sender with no connection, whose endpoints are those of the consumers by the key of their
  -- process, a request of a consumer for a file that can be read returns, whatever the calls answer. On
  -- an error nothing is put. With DYAD_RC_OK the data are put over an endpoint of that consumer, to
  -- its buffer and with its key, there is no connection again, the key is destroyed, and the block of
  -- the address stays allocated.
  pub serve_lem :
      (os : UcxCalls)
      → decode p.enc_addr ≡ some (address (key_of p.pid))
      → Known address s.cache
      → (r : Transport × Rc) × (serve decode
            (record { message = unpacked p; file = some bytes; calls = os })
            (idle s)
          ≡ returned r)
        × Served r
  unfolding serve rpc_unpack unpack_address unpack_rkey
  serve_lem os decodes known =
      let r : Request = record { message = unpacked p; file = some bytes; calls = os } in
      let P : Transport × Rc → Type 0 =
        λ addressed. Served (answered r (keyed decode os p addressed)) in
      let Q : Transport × Rc → Type 0 = λ u. Served (answered r u) in
      (
        answered r (keyed decode os p (unpack_address decode os p (idle s))),
        refl,
        if-lem P (not os.malloc_address) (λ _. inl (refl, refl, known))
            (λ _.
              Option-lem P (decode p.enc_addr) (λ _. inl (refl, refl, known))
                (λ addr e.
                  let own : addr ≡ address (key_of p.pid) =
                    ap (λ o. elim o [ none ↦ addr | some a ↦ a ]) (sym e ∙ decodes) in
                  if-lem Q (not os.malloc_rkey) (λ _. inl (refl, refl, known))
                    (λ _.
                      Option-lem Q (decode p.enc_rkey) (λ _. inl (refl, refl, known))
                        (λ rkey d. asking-Served os addr rkey d own known)))),
      )
