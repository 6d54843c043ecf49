-- ===== src/Dtl/Ucx/Thrown.antt =====
-- What is left when the map of endpoints has no memory for a new one.
use dyad.Prelude.{
  ℕ, ◌==◌, ◌≡◌, ◌≢◌, refl, ap, ◌∙◌, Bool, true, false, List, [], ◌∷◌, Option, none, some, arith,
  if-lem,
}
use dyad.Prelude.Run.{returned}
use dyad.Core.Codes.{Rc, rc_sysfail}
use dyad.Dtl.EpCache.{
  Endpoint, EpCache, Worker, closed, find, disconnect_all, dyad_ucx_ep_cache_finalize,
}
use dyad.Dtl.Ucx.{Transport, Payload, unpacked, UcxCalls, key_of, unpack_address, unpack_rkey}
use dyad.Dtl.Ucx.Requests.{respond_with, serve}
use dyad.Dtl.Ucx.Endpoints.{endpoints}
use dyad.Dtl.Ucx.Links.{Idle, idle, asking, linked, behind, made_of, unmapped, establish_miss}
use dyad.Dtl.Ucx.Steps.{all_succeed, serves}

abbrev pub insert_throws : UcxCalls
insert_throws = record all_succeed { map_insert = false }

-- No endpoint of the map has this number.
abbrev pub AllOther : ℕ → EpCache → Type 0
AllOther number [] = Unit {0}
AllOther number ((key, ep) ∷ cache) = (number ≢ ep.number) × AllOther number cache

apart : (a b : ℕ) → a ≢ b → (a == b) ≡ false
apart a b n = ground (arith, n)

-- The finalization closes what is in the map, and nothing else.
disconnect_all-kept :
    (closes : Endpoint → Bool) (made : Endpoint) (cache : EpCache) (worker : Worker)
    → AllOther made.number cache
    → worker.opened ≡ made ∷ endpoints cache
    → (disconnect_all closes cache worker).opened ≡ made ∷ []
unfolding disconnect_all closed
disconnect_all-kept closes made [] worker other opened = opened
disconnect_all-kept closes made ((key, ep) ∷ cache) worker (differs, other) opened =
    let same : (ep.number == ep.number) ≡ true = ground arith in
    let not_made : (made.number == ep.number) ≡ false = apart made.number ep.number differs in
    let gone : Worker = record worker { opened = closed ep.number worker.opened } in
    let rest : (disconnect_all closes cache gone).opened ≡ made ∷ [] =
      disconnect_all-kept closes made cache gone other
        (ap (closed ep.number) opened ∙ rw (closed, not_made, same) refl) in
    if-lem (λ (r : Worker × Rc). (disconnect_all closes cache r.0).opened ≡ made ∷ []) (closes ep)
      (λ _. rest) (λ _. rest)

module _ (decode : List ℕ → Option (List ℕ)) where
  throws :
      (s : Idle) (p : Payload) (bytes addr rkey : List ℕ)
      → find (key_of p.pid) s.cache ≡ none
      → respond_with insert_throws bytes (asking s p addr rkey)
        ≡ (linked (unmapped s p addr) p addr rkey (made_of s p addr), rc_sysfail)
  unfolding respond_with
  throws s p bytes addr rkey miss =
      ap (behind bytes insert_throws) (establish_miss s p insert_throws addr rkey miss)

  -- A request of a consumer for which the map has no endpoint, on a sender with no connection whose open
  -- endpoints are those of the map, with other numbers than the next: when everything succeeds but
  -- the insertion of the new endpoint into the map, the request is answered DYAD_RC_SYSFAIL, and
  -- dyad_ucx_ep_cache_finalize leaves the new endpoint open, whatever the closing of each answers.
  pub serve_throws :
      (closes : Endpoint → Bool) (s : Idle) (p : Payload) (bytes addr rkey : List ℕ)
      → decode p.enc_addr ≡ some addr
      → decode p.enc_rkey ≡ some rkey
      → find (key_of p.pid) s.cache ≡ none
      → s.worker.opened ≡ endpoints s.cache
      → AllOther s.worker.next s.cache
      → (t : Transport) × (serve decode
            (record { message = unpacked p; file = some bytes; calls = insert_throws })
            (idle s)
          ≡ returned (t, rc_sysfail))
        × ((dyad_ucx_ep_cache_finalize closes (some t.ucx.ep_cache) t.worker).0.1.opened
            ≡ made_of s p addr ∷ [])
  unfolding unpack_address unpack_rkey
  serve_throws closes s p bytes addr rkey e k miss owned other =
      let made = made_of s p addr in
      (
        linked (unmapped s p addr) p addr rkey made,
        serves decode insert_throws p bytes addr rkey (idle s) refl refl e k
            ∙ ap returned (throws s p bytes addr rkey miss),
        disconnect_all-kept closes made s.cache _ other (ap (λ l. made ∷ l) owned),
      )
