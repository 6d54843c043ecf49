-- ===== src/Service/Requests/Tests.antt =====
-- The handlers on a file of three bytes.
use dyad.Prelude.{ℕ, ◌≡◌, refl, true, List, [], ◌∷◌, ◌++◌, some, arith, length}
use dyad.Prelude.Run.{returned}
use dyad.Core.Codes.{rc_ok, rc_badbuf}
use dyad.RangeCache.{Files}
use dyad.RangeCache.Sound.{IsSound}
use dyad.RangeCache.Succeeds.{all_succeed}
use dyad.RangeCache.PastEnd.{staged, staged-IsSound}
use dyad.Service.{Reader, read_chunks}
use dyad.Service.Serves.{IsPread}
use dyad.Service.Requests.{
  RequestCalls, Handler, Handled, prefix, le_bytes, receive, read_bytes, serve_file,
  dyad_fetch_request_cb, RangeRequestCalls, dyad_fetch_range_request_cb,
}
use dyad.Service.Requests.Replies.{Settled, dyad_fetch_request_cb_lem}
use dyad.Service.Requests.RangeReplies.{Right, dyad_fetch_range_request_cb_lem}

abbrev three : List ℕ
three = 7 ∷ 8 ∷ 9 ∷ []

abbrev reads_all : Reader
reads_all call n = some n

reads_all-IsPread : IsPread reads_all
reads_all-IsPread call n k h = ground arith

abbrev calls : RequestCalls
calls = record {
  streaming = true;
  userid = true;
  unpack = rc_ok;
  respond = rc_ok;
  open_file = true;
  shared_lock = rc_ok;
  get_buffer = rc_ok;
  pread = reads_all;
  fuel = 3;
  connect = rc_ok;
  send = rc_ok;
  errno = 0;
  garbage = λ n. [];
}

abbrev range_calls : RangeRequestCalls
range_calls = record {
  os = calls;
  can_detach = true;
  calloc = true;
  detach = rc_badbuf;
  ensure = all_succeed;
}

abbrev path : List ℕ
path = b'/' ∷ b'l' ∷ []

sends_size :
    (h : Handler) × (dyad_fetch_request_cb true calls (λ _. three) path ≡ some (returned h))
    × (h.sends ≡ (3 ∷ 0 ∷ 0 ∷ 0 ∷ 0 ∷ 0 ∷ 0 ∷ 0 ∷ 7 ∷ 8 ∷ 9 ∷ []) ∷ [])
unfolding le_bytes receive read_bytes read_chunks serve_file dyad_fetch_request_cb
sends_size = (_, refl, refl)

dyad_fetch_request_cb_lem_example :
    (h : Handler) × (dyad_fetch_request_cb true calls (λ _. three) path ≡ some (returned h))
    × Settled (prefix true (length three) ++ three) h
dyad_fetch_request_cb_lem_example =
    dyad_fetch_request_cb_lem calls reads_all-IsPread true (λ _. three) path refl (omega arith)

dyad_fetch_range_request_cb_lem_example :
    (fs' : Files) × ((handled : Handled) × (dyad_fetch_range_request_cb range_calls 0 path
          (some path)
          1
          2
          (staged three)
        ≡ returned (fs', some handled))
      × IsSound three fs'
      × Right range_calls three path path 1 2
          (omega arith)
          (omega arith)
          reads_all-IsPread
          (omega arith)
          0
          handled)
dyad_fetch_range_request_cb_lem_example =
    dyad_fetch_range_request_cb_lem range_calls three path path 1 2 (omega arith) (omega arith)
      reads_all-IsPread (omega arith) 0 (staged three) (staged-IsSound three)
