-- ===== src/Client/GetData.antt =====
-- The transfer of a file or a range from its producer's broker: `dyad_get_data` and
-- `dyad_get_data_range` of dyad/client/dyad_client.c, over the calls of Flux and of the transport.
pub mod Received
mod Tests
use dyad.Prelude.{
  ℕ, zero, suc, ◌+◌, ◌-◌, ◌*◌, ◌^◌, Bool, true, false, not, ◌&&◌, ◌||◌, List, [], ◌∷◌, Option, none,
  some, leb, ltb, ◌==◌, if◌then◌else◌, length, take, drop,
}
use dyad.Prelude.Run.{Run, returned, fault}
use dyad.Core.Codes.{Rc, rc_ok, rc_badfio, rc_badrpc, rc_rpc_finished, is_error}

-- What the calls answer. `recv` has the buffer, or NULL. `ends` says whether `flux_rpc_get` finds the
-- end of the stream (-1 with ENODATA), for a future or for NULL.
pub record TransferCalls : Type 0 where
  pub rpc_pack : Rc
  pub send_rpc : Bool
  pub response : Rc
  pub connect : Rc
  pub recv : Rc × Option (List ℕ)
  pub ends : Bool → Bool

-- `file_data` is NULL where none. `connections` counts what is established and not closed.
pub record Transferred : Type 0 where
  pub rc : Rc
  pub future : Bool
  pub file_data : Option (List ℕ)
  pub connections : ℕ

abbrev pub nothing : Rc → Bool → Transferred
nothing rc future = record { rc = rc; future = future; file_data = none; connections = 0 }

-- Up to `get_done`. The connection is closed whatever `recv` answers.
unfoldable pub exchange : TransferCalls → Transferred
exchange os =
    if is_error os.rpc_pack
    then nothing os.rpc_pack false
    else if not os.send_rpc
    then nothing rc_badrpc false
    else if is_error os.response
    then nothing os.response true
    else if is_error os.connect
    then nothing os.connect true
    else record { rc = os.recv.0; future = true; file_data = os.recv.1; connections = 0 }

abbrev pub is_final : Rc → Bool
is_final rc_badrpc = true
is_final rc_rpc_finished = true
is_final _ = false

-- `get_done`: unless the call is over already, the stream must end now.
abbrev pub at_end : TransferCalls → Transferred → Transferred
at_end os t =
    if not (is_final t.rc) && not (os.ends t.future) then record t { rc = rc_badrpc } else t

unfoldable pub dyad_get_data_range : TransferCalls → Transferred
unfolding exchange
dyad_get_data_range os = at_end os (exchange os)

-- A number from its bytes, the lowest first.
unfoldable pub of_le_bytes : List ℕ → ℕ
of_le_bytes [] = 0
of_le_bytes (x ∷ xs) = x + 256 * of_le_bytes xs

-- In a build with UCX: the size in front of the data, in the transport's buffer. A size below 0 stands
-- for a file that was not read.
unfoldable pub split_size : List ℕ → Transferred → Transferred
unfolding of_le_bytes
split_size buffer t =
    let read_len = of_le_bytes (take 8 buffer) in
    if leb (2 ^ 63) read_len
    then record t { rc = rc_badfio; file_data = some [] }
    else record t { file_data = some (take read_len (drop 8 buffer)) }

-- `ucx` is the build and the transport, `buffer` what `get_buffer` has, whatever came before. The first
-- component is the data with the length that is answered.
unfoldable pub dyad_get_data : Bool → TransferCalls → List ℕ → Transferred
unfolding exchange split_size
dyad_get_data ucx os buffer =
    let t = at_end os (exchange os) in if ucx then split_size buffer t else t
