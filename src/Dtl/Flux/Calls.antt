-- ===== src/Dtl/Flux/Calls.antt =====
-- Sequences of the calls that the broker module makes of the Flux transport.
use dyad.Prelude.{ℕ, Bool, List, [], ◌∷◌}
use dyad.Prelude.Run.{Run, ◌>>=◌}
use dyad.Dtl.Flux.{
  Module, Jansson, rpc_unpack, rpc_unpack_range, rpc_recv_response, send, detach_request,
  send_detached, abort_detached, close_connection,
}

-- What the module asks of the transport, with the answers of the calls that it makes.
pub data Call : Type 0 where
  unpacks unpacks_range receives : ℕ → Call
  sends : Bool → List ℕ → Call
  detaches : Bool → Call
  sends_detached : Bool → ℕ → List ℕ → Call
  aborts : ℕ → Call
  closes : Call

module _ {Json : Type 0} (jansson : Jansson Json) (payload : ℕ → Json) where
  unfoldable pub call_part : Call → Module → Run Module
  unfolding rpc_unpack rpc_unpack_range detach_request send_detached abort_detached
  call_part (unpacks msg) w = Run.returned (rpc_unpack jansson payload msg w).0
  call_part (unpacks_range msg) w = Run.returned (rpc_unpack_range jansson payload msg w).0
  call_part (receives f) w = Run.returned (rpc_recv_response f w).0
  call_part (sends responds buf) w = Run.returned (send responds buf w).0
  call_part (detaches malloc_ok) w = Run.returned (detach_request malloc_ok w).0
  call_part (sends_detached responds address buf) w = do
    r ← send_detached responds address buf w
    Run.returned r.0
  call_part (aborts address) w = do r ← abort_detached address w; Run.returned r.0
  call_part closes w = Run.returned (close_connection w).0

  unfoldable pub run : List Call → Module → Run Module
  run [] w = Run.returned w
  run (c ∷ calls) w = do w ← call_part c w; run calls w
