-- ===== src/Client/GetData/Tests.antt =====
-- A file of three bytes, with its size before it.
use dyad.Prelude.{ℕ, ◌≡◌, refl, true, List, [], ◌∷◌, ◌++◌, some, arith, length}
use dyad.Core.Codes.{rc_ok}
use dyad.Service.Requests.{prefix}
use dyad.Client.GetData.{TransferCalls, dyad_get_data}
use dyad.Client.GetData.Received.{GoesThrough, dyad_get_data-sent}

abbrev three : List ℕ
three = 7 ∷ 8 ∷ 9 ∷ []

abbrev calls : TransferCalls
calls = record {
  rpc_pack = rc_ok;
  send_rpc = true;
  response = rc_ok;
  connect = rc_ok;
  recv = (rc_ok, some three);
  ends = λ future. future;
}

calls-GoesThrough : GoesThrough calls three
calls-GoesThrough = record {
  packs = refl;
  sends = refl;
  responds = refl;
  connects = refl;
  receives = refl;
  ends = refl;
}

dyad_get_data-sent_example :
    dyad_get_data true calls (prefix true (length three) ++ (three ++ 0 ∷ []))
    ≡ record { rc = rc_ok; future = true; file_data = some three; connections = 0 }
dyad_get_data-sent_example =
    dyad_get_data-sent calls three (0 ∷ []) three calls-GoesThrough (omega arith)
