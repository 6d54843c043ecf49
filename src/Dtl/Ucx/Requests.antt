-- ===== src/Dtl/Ucx/Requests.antt =====
-- How `dyad_fetch_request_cb` of dyad/service/flux_module/dyad.c calls the transport.
use dyad.Prelude.{ℕ, List, [], ◌∷◌, Option, none, some, if◌then◌else◌}
use dyad.Prelude.Run.{Run, ◌>>=◌}
use dyad.Core.Codes.{Rc, rc_ok, is_error}
use dyad.Dtl.Ucx.{
  Transport, Unpacked, UcxCalls, rpc_unpack, establish_connection, send, close_connection,
}

-- A request that the module answers: its message, the buffer with its file, where that can be read,
-- and what the calls answer.
pub record Request : Type 0 where
  pub message : Unpacked
  pub file : Option (List ℕ)
  pub calls : UcxCalls

-- The connection is closed behind a send that succeeds.
abbrev pub closed_behind : Transport × Rc → Transport × Rc
closed_behind (t, rc) = if is_error rc then (t, rc) else ((close_connection t).0, rc_ok)

unfoldable pub respond_with : UcxCalls → List ℕ → Transport → Transport × Rc
unfolding establish_connection send
respond_with os bytes t =
    let made = establish_connection os t in
    if is_error made.1 then made else closed_behind (send os bytes made.0)

-- The file of an unpacked request, where it can be read.
abbrev pub answered : Request → Transport × Rc → Transport × Rc
answered r (t, rc) =
    if is_error rc
    then (t, rc)
    else elim r.file [ none ↦ (t, rc_ok) | some bytes ↦ respond_with r.calls bytes t ]

-- What `dyad_fetch_request_cb` asks of the transport: nothing more when the file cannot be read.
module _ (decode : List ℕ → Option (List ℕ)) where
  unfoldable pub serve : Request → Transport → Run (Transport × Rc)
  unfolding rpc_unpack
  serve r t = do u ← rpc_unpack decode r.calls r.message t; Run.returned (answered r u)

  unfoldable pub serve_all : List Request → Transport → Run Transport
  serve_all [] t = Run.returned t
  serve_all (r ∷ requests) t = do u ← serve r t; serve_all requests u.0
