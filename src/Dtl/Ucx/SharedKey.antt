-- ===== src/Dtl/Ucx/SharedKey.antt =====
-- What two processes with the same number share.
use dyad.Prelude.{
  ℕ, ◌+◌, ◌-◌, ◌==◌, arith, if-lem, ◌≡◌, refl, ap, sym, ◌∙◌, true, List, ◌∷◌, Option, none, some,
}
use dyad.Prelude.Run.{returned}
use dyad.Core.Codes.{rc_ok}
use dyad.Dtl.EpCache.{Endpoint, find}
use dyad.Dtl.Ucx.{Transport, Payload, unpacked, key_of, send, close_connection}
use dyad.Dtl.Ucx.Requests.{respond_with, serve}
use dyad.Dtl.Ucx.Links.{
  Idle, idle, asking, behind, establish_hit, made_of, extended, establish_miss,
}
use dyad.Dtl.Ucx.Steps.{all_succeed, put_of, serves}

same_test : (a b : ℕ) → a ≡ b → (a == b) ≡ true
same_test a b e = ground arith

module _ (decode : List ℕ → Option (List ℕ)) where
  abbrev first_served : Idle → Payload → List ℕ → List ℕ → List ℕ → Idle
  first_served s p bytes addr rkey =
      let g = extended s p addr in
      record g {
        key = key_of p.pid;
        buffer = p.cons_buf;
        blocks = s.blocks + 1 - 0 + 1 - 1;
        rkeys = s.rkeys + 1 - 1;
        puts = put_of p bytes rkey (made_of s p addr) ∷ s.puts;
      }

  creates_first :
      (s : Idle) (p : Payload) (bytes addr rkey : List ℕ)
      → find (key_of p.pid) s.cache ≡ none
      → respond_with all_succeed bytes (asking s p addr rkey)
        ≡ (idle (first_served s p bytes addr rkey), rc_ok)
  unfolding respond_with send close_connection
  creates_first s p bytes addr rkey miss =
      ap (behind bytes all_succeed) (establish_miss s p all_succeed addr rkey miss)

  shares :
      (s : Idle) (p p' : Payload) (bytes addr rkey : List ℕ)
      → p'.pid ≡ p.pid
      → find (key_of p'.pid) (first_served s p bytes addr rkey).cache ≡ some (made_of s p addr)
  unfolding find
  shares s p p' bytes addr rkey same =
      if-lem (λ o. o ≡ some (made_of s p addr)) (key_of p.pid == key_of p'.pid) (λ _. refl)
        (λ differs.
          let one : (key_of p.pid == key_of p'.pid) ≡ true =
            same_test (key_of p.pid) (key_of p'.pid) (ap key_of (sym same)) in
          cc)

  -- Two consumers have the same process number, as they may on two nodes, and the map has no endpoint
  -- for it. When their requests are served one behind the other and every call succeeds, both are
  -- answered DYAD_RC_OK, and the data of the second are put over the endpoint that was created for the
  -- address of the first.
  pub serve_same_pid :
      (s : Idle) (p p' : Payload) (bytes bytes' addr addr' rkey rkey' : List ℕ)
      → decode p.enc_addr ≡ some addr
      → decode p.enc_rkey ≡ some rkey
      → decode p'.enc_addr ≡ some addr'
      → decode p'.enc_rkey ≡ some rkey'
      → p'.pid ≡ p.pid
      → find (key_of p.pid) s.cache ≡ none
      → (t t' : Transport) × (ep : Endpoint) × (serve decode
            (record { message = unpacked p; file = some bytes; calls = all_succeed })
            (idle s)
          ≡ returned (t, rc_ok))
        × (serve decode
              (record { message = unpacked p'; file = some bytes'; calls = all_succeed })
              t
            ≡ returned (t', rc_ok))
        × (t'.puts ≡ put_of p' bytes' rkey' ep ∷ put_of p bytes rkey ep ∷ s.puts)
        × (ep.address ≡ addr)
  unfolding respond_with send close_connection
  serve_same_pid s p p' bytes bytes' addr addr' rkey rkey' e k e' k' same miss =
      let s' = first_served s p bytes addr rkey in
      let ep = made_of s p addr in
      (
        idle s',
        _,
        ep,
        serves decode all_succeed p bytes addr rkey (idle s) refl refl e k
            ∙ ap returned (creates_first s p bytes addr rkey miss),
        serves decode all_succeed p' bytes' addr' rkey' (idle s') refl refl e' k'
            ∙ ap (λ made. returned (behind bytes' all_succeed made))
                (establish_hit s' p' all_succeed addr' rkey' ep
                  (shares s p p' bytes addr rkey same)),
        refl,
        refl,
      )
