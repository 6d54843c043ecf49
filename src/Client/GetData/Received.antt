-- ===== src/Client/GetData/Received.antt =====
-- The data that a transfer answers with.
use dyad.Prelude.{
  ℕ, zero, suc, ◌/◌, ◌^◌, ◌<◌, ◌≡◌, refl, sym, subst, ap, ◌∙◌, inl, inr, true, false, List, ◌++◌,
  some, arith, leb, length, take-append_self, drop-append_self, Bool-cases,
}
use dyad.Core.Codes.{Rc, rc_ok, rc_badrpc, is_error, ok_of_not_error}
use dyad.Service.Requests.{le_bytes, prefix}
use dyad.Client.GetData.{
  TransferCalls, Transferred, exchange, is_final, at_end, dyad_get_data_range, of_le_bytes,
  split_size, dyad_get_data,
}

length-le_bytes : (n x : ℕ) → length (le_bytes n x) ≡ n
unfolding le_bytes
length-le_bytes zero x = refl
length-le_bytes (suc n) x = omega (arith, length-le_bytes n (x / 256))

-- Reading the bytes of a ssize_t gives it back.
of_le_bytes-le_bytes : (x : ℕ) → x < 2 ^ 63 → of_le_bytes (le_bytes 8 x) ≡ x
unfolding le_bytes of_le_bytes
of_le_bytes-le_bytes x small = omega arith

-- Every call succeeds and the stream ends behind the data.
pub record GoesThrough (os : TransferCalls) (bytes : List ℕ) : Type 0 where
  pub packs : os.rpc_pack ≡ rc_ok
  pub sends : os.send_rpc ≡ true
  pub responds : os.response ≡ rc_ok
  pub connects : os.connect ≡ rc_ok
  pub receives : os.recv ≡ (rc_ok, some bytes)
  pub ends : os.ends true ≡ true

exchange-GoesThrough :
    (os : TransferCalls) (bytes : List ℕ)
    → GoesThrough os bytes
    → at_end os (exchange os)
      ≡ record { rc = rc_ok; future = true; file_data = some bytes; connections = 0 }
unfolding exchange
exchange-GoesThrough os bytes g =
    ground (arith, g.packs, g.sends, g.responds, g.connects, g.receives, g.ends)

split_size-sent :
    (file rest : List ℕ) (t : Transferred)
    → length file < 2 ^ 63
    → split_size (le_bytes 8 (length file) ++ (file ++ rest)) t ≡ record t { file_data = some file }
unfolding split_size
split_size-sent file rest t small =
    let size = le_bytes 8 (length file) in
    let sized : 8 ≡ length size = sym (length-le_bytes 8 (length file)) in
    let not_negative : leb (2 ^ 63) (length file) ≡ false = ground arith in
    rw
      (
        take-append_self size (file ++ rest) 8 sized,
        drop-append_self size (file ++ rest) 8 sized,
        of_le_bytes-le_bytes (length file) small,
        not_negative,
        take-append_self file rest (length file) refl,
      )
      refl

-- In a build with UCX, what the broker sends for a file, its size and its bytes, is split again: when
-- every call succeeds and the buffer begins with what was sent, the answer is DYAD_RC_OK with exactly
-- the file, and the connection is closed. The size fits a ssize_t.
pub dyad_get_data-sent :
    (os : TransferCalls) (file rest bytes : List ℕ)
    → GoesThrough os bytes
    → length file < 2 ^ 63
    → dyad_get_data true os (prefix true (length file) ++ (file ++ rest))
      ≡ record { rc = rc_ok; future = true; file_data = some file; connections = 0 }
unfolding dyad_get_data
dyad_get_data-sent os file rest bytes g small = rw (exchange-GoesThrough os bytes g) (
    split_size-sent file rest
      (record { rc = rc_ok; future = true; file_data = some bytes; connections = 0 }) small)

ok-not_error : (rc : Rc) → is_error rc ≡ true → rc ≡ rc_ok → ⊥
ok-not_error rc e h = let x : is_error rc_ok ≡ true = subst (λ r. is_error r ≡ true) h e in cc

at_end-ok :
    (os : TransferCalls) (t : Transferred)
    → (at_end os t).rc ≡ rc_ok
    → (t.rc ≡ rc_ok) × (os.ends t.future ≡ true) × ((at_end os t).file_data ≡ t.file_data)
at_end-ok os t ok = elim (Bool-cases (os.ends t.future)) [
  | inl e ↦ (ground (arith, e, ok), e, ground (arith, e))
  | inr e ↦ elim (Bool-cases (is_final t.rc)) [
    | inl f ↦
        let fine : t.rc ≡ rc_ok = ground (arith, f, ok) in
        let x : is_final rc_ok ≡ true = subst (λ r. is_final r ≡ true) fine f in cc
    | inr f ↦ let x : rc_badrpc ≡ rc_ok = ground (arith, e, f, ok) in cc
  ]
]

exchange-ok :
    (os : TransferCalls)
    → (exchange os).rc ≡ rc_ok
    → (os.rpc_pack ≡ rc_ok)
      × (os.send_rpc ≡ true)
      × (os.response ≡ rc_ok)
      × (os.connect ≡ rc_ok)
      × (os.recv.0 ≡ rc_ok)
      × (exchange os
          ≡ record { rc = os.recv.0; future = true; file_data = os.recv.1; connections = 0 })
unfolding exchange
exchange-ok os ok = elim (Bool-cases (is_error os.rpc_pack)) [
  | inl e ↦ absurd (ok-not_error os.rpc_pack e (ground (arith, e, ok)))
  | inr e ↦ elim (Bool-cases os.send_rpc) [
    | inr e₁ ↦ let x : rc_badrpc ≡ rc_ok = ground (arith, e, e₁, ok) in cc
    | inl e₁ ↦ elim (Bool-cases (is_error os.response)) [
      | inl e₂ ↦ absurd (ok-not_error os.response e₂ (ground (arith, e, e₁, e₂, ok)))
      | inr e₂ ↦ elim (Bool-cases (is_error os.connect)) [
        | inl e₃ ↦ absurd (ok-not_error os.connect e₃ (ground (arith, e, e₁, e₂, e₃, ok)))
        | inr e₃ ↦ (
          ok_of_not_error os.rpc_pack e,
          e₁,
          ok_of_not_error os.response e₂,
          ok_of_not_error os.connect e₃,
          ground (arith, e, e₁, e₂, e₃, ok),
          ground (arith, e, e₁, e₂, e₃),
        )
      ]
    ]
  ]
]

-- A transfer that answers DYAD_RC_OK: every call has succeeded, the stream has ended behind the data,
-- and the data are what was received.
dyad_get_data_range_lem :
    (os : TransferCalls)
    → (dyad_get_data_range os).rc ≡ rc_ok
    → (os.rpc_pack ≡ rc_ok)
      × (os.send_rpc ≡ true)
      × (os.response ≡ rc_ok)
      × (os.connect ≡ rc_ok)
      × (os.recv.0 ≡ rc_ok)
      × (os.ends true ≡ true)
      × ((dyad_get_data_range os).file_data ≡ os.recv.1)
unfolding dyad_get_data_range
dyad_get_data_range_lem os ok =
    let (fine, ended, kept) = at_end-ok os (exchange os) ok in
    let (packs, sends, responds, connects, receives, through) = exchange-ok os fine in
    (
      packs,
      sends,
      responds,
      connects,
      receives,
      ap (λ (t : Transferred). os.ends t.future) (sym through) ∙ ended,
      kept ∙ ap (λ (t : Transferred). t.file_data) through,
    )
