-- ===== src/Dtl/Flux.antt =====
-- dyad/dtl/flux_dtl.c: the transport by responses of Flux. A message, a future and a request that is
-- detached go by a number. The references that the module takes on messages, the responses it has
-- sent and the resets of futures are kept beside the handle.
pub mod Ranges
pub mod Calls
pub mod References
pub mod Runs
pub mod Detached
mod Tests
use dyad.Prelude.{
  ℕ, ◌+◌, ◌-◌, Bool, true, false, List, [], ◌∷◌, Option, none, some, ◌==◌, if◌then◌else◌, length,
}
use dyad.Prelude.Integers.{ℤ, int64_of, size_of}
use dyad.Prelude.Run
use dyad.Prelude.Run.{Run, ◌>>=◌, ◌>>◌}
use dyad.Core.Codes.{
  Rc, rc_ok, rc_sysfail, rc_badbuf, rc_fluxfail, rc_badrpc, rc_badpack, rc_badunpack,
  rc_rpc_finished, is_error,
}

-- struct dyad_dtl_flux, less the Flux handle and the two fields that only say how to log
pub record Flux : Type 0 where
  pub f : Option ℕ
  pub msg : Option ℕ

-- struct dyad_dtl_flux_req_state, and the address it has
pub record ReqState : Type 0 where
  pub address : ℕ
  pub msg : Option ℕ

-- `next` is the address of the next `malloc`.
pub record Module : Type 0 where
  pub flux : Flux
  pub states : List ReqState
  pub next : ℕ
  pub refs : List ℕ
  pub responses : List (ℕ × List ℕ)
  pub resets : List ℕ

-- What `json_pack` and `flux_request_unpack` answer for the two formats, "{s:s}" and
-- "{s:s, s:I, s:I}".
pub record Jansson (Json : Type 0) : Type 0 where
  pub pack_path : List ℕ → Option Json
  pub unpack_path : Json → Option (List ℕ)
  pub pack_range : List ℕ → ℤ → ℤ → Option Json
  pub unpack_range : Json → Option (List ℕ × ℤ × ℤ)

abbrev pub init : Bool → Option Flux × Rc
init malloc_ok =
    if malloc_ok then (some (record { f = none; msg = none }), rc_ok) else (none, rc_sysfail)

abbrev pub set_msg : Option ℕ → Module → Module
set_msg msg w = let flux = w.flux in record w { flux = record flux { msg = msg } }

module _ {Json : Type 0} (jansson : Jansson Json) where
  abbrev pub packed : Option Json → Option Json × Rc
  packed none = (none, rc_badpack)
  packed (some j) = (some j, rc_ok)

  unfoldable pub rpc_pack : List ℕ → ℕ → Option Json × Rc
  rpc_pack upath producer_rank = packed (jansson.pack_path upath)

  unfoldable pub rpc_pack_range : List ℕ → ℕ → ℕ → ℕ → Option Json × Rc
  rpc_pack_range upath producer_rank offset len =
      packed (jansson.pack_range upath (int64_of offset) (int64_of len))

  -- `payload` is what a message carries.
  unfoldable pub rpc_unpack : (ℕ → Json) → ℕ → Module → Module × Option (List ℕ) × Rc
  rpc_unpack payload msg w = elim (jansson.unpack_path (payload msg)) [
    | none ↦ (w, none, rc_badunpack)
    | some upath ↦ (set_msg (some msg) w, some upath, rc_ok)
  ]

  unfoldable pub rpc_unpack_range : (ℕ → Json) → ℕ → Module → Module × Option (List ℕ × ℕ × ℕ) × Rc
  rpc_unpack_range payload msg w = elim (jansson.unpack_range (payload msg)) [
    | none ↦ (w, none, rc_badunpack)
    | some (upath, offset, len) ↦
        (set_msg (some msg) w, some (upath, size_of offset, size_of len), rc_ok)
  ]

abbrev pub rpc_recv_response : ℕ → Module → Module × Rc
rpc_recv_response f w = let flux = w.flux in (record w { flux = record flux { f = some f } }, rc_ok)

-- What `*data_buf` is on the way in and out; `memory` is what `posix_memalign` gives.
abbrev pub get_buffer : Bool → List ℕ → Option (List ℕ) → Option (List ℕ) × Rc
get_buffer memalign_ok memory (some old) = (some old, rc_badbuf)
get_buffer memalign_ok memory none =
    if memalign_ok then (some memory, rc_ok) else (none, rc_sysfail)

abbrev pub return_buffer : Option (List ℕ) → Option (List ℕ) × Rc
return_buffer none = (none, rc_badbuf)
return_buffer (some buf) = (none, rc_ok)

-- `flux_respond_raw`, which refuses a NULL message, or fails for a reason of its own.
abbrev pub respond_raw : Bool → Option ℕ → List ℕ → Module → Module × Rc
respond_raw responds none buf w = (w, rc_fluxfail)
respond_raw responds (some msg) buf w =
    if responds
    then (record w { responses = (msg, buf) ∷ w.responses }, rc_ok)
    else (w, rc_fluxfail)

abbrev pub send : Bool → List ℕ → Module → Module × Rc
send responds buf w = let flux = w.flux in respond_raw responds flux.msg buf w

-- What `flux_rpc_get_raw` answers; `no_data` is ENODATA.
pub data RawAnswer : Type 0 where
  raw : List ℕ → RawAnswer
  no_data failed : RawAnswer

-- `*buf` and `*buflen`
pub record Received : Type 0 where
  pub buf : Option (List ℕ)
  pub buflen : ℕ

abbrev pub copied : Bool → List ℕ → Received → Received × Rc
copied memalign_ok bytes r =
    let (got, rc) = get_buffer memalign_ok bytes r.buf in
    if is_error rc
    then (record { buf = none; buflen = 0 }, rc)
    else (record { buf = got; buflen = length bytes }, rc_ok)

unfoldable pub recv : Bool → RawAnswer → Received → Module → (Module × Received) × Rc
recv memalign_ok answer r w =
    let flux = w.flux in
    elim flux.f [
      | none ↦ ((w, r), rc_fluxfail)
      | some f ↦
          let reset = record w { resets = f ∷ w.resets } in
          elim answer [
            | raw bytes ↦ let (r', rc) = copied memalign_ok bytes r in ((reset, r'), rc)
            | no_data ↦ ((reset, r), rc_rpc_finished)
            | failed ↦ ((reset, r), rc_badrpc)
          ]
    ]

-- References on messages.
abbrev pub incref : Option ℕ → List ℕ → List ℕ
incref none refs = refs
incref (some msg) refs = msg ∷ refs

-- `none` when there is no such reference.
unfoldable pub release : ℕ → List ℕ → Option (List ℕ)
release msg [] = none
release msg (ref ∷ refs) =
    let rest = release msg refs in
    if ref == msg then some refs else elim rest [ none ↦ none | some kept ↦ some (ref ∷ kept) ]

abbrev pub decref : Option ℕ → Module → Run Module
decref none w = Run.returned w
decref (some msg) w = elim (release msg w.refs) [
  | none ↦ Run.fault
  | some refs ↦ Run.returned (record w { refs = refs })
]

unfoldable pub state_at : ℕ → List ReqState → Option ReqState
state_at address [] = none
state_at address (s ∷ states) =
    let rest = state_at address states in if s.address == address then some s else rest

unfoldable pub without : ℕ → List ReqState → List ReqState
without address [] = []
without address (s ∷ states) =
    let rest = without address states in if s.address == address then states else s ∷ rest

-- The address of the state, where there is memory for it.
unfoldable pub detach_request : Bool → Module → Module × Option ℕ × Rc
detach_request malloc_ok w =
    let flux = w.flux in
    let state : ReqState = record { address = w.next; msg = flux.msg } in
    let detached : Module = record w {
      states = state ∷ w.states;
      next = w.next + 1;
      refs = incref flux.msg w.refs;
      flux = record flux { msg = none };
    } in
    if malloc_ok then (detached, some w.next, rc_ok) else (w, none, rc_sysfail)

-- `flux_msg_decref` and `free`
abbrev pub let_go : ReqState → Module → Run Module
let_go s w = do
  freed ← decref s.msg w
  Run.returned (record freed { states = without s.address freed.states })

-- A state that is not there has been freed.
unfoldable pub send_detached : Bool → ℕ → List ℕ → Module → Run (Module × Rc)
send_detached responds address buf w = elim (state_at address w.states) [
  | none ↦ Run.fault
  | some s ↦ do
    let (sent, rc) = respond_raw responds s.msg buf w
    freed ← let_go s sent
    Run.returned (freed, rc)
]

unfoldable pub abort_detached : ℕ → Module → Run (Module × Rc)
abort_detached address w = elim (state_at address w.states) [
  | none ↦ Run.fault
  | some s ↦ do freed ← let_go s w; Run.returned (freed, rc_ok)
]

abbrev pub close_connection : Module → Module × Rc
close_connection w = (record w { flux = record { f = none; msg = none } }, rc_ok)

-- The handle is freed.
abbrev pub finalize : Option Flux → Option Flux × Rc
finalize handle = (none, rc_ok)
