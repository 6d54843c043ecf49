-- ===== src/Service/Requests.antt =====
-- The request handlers of dyad/service/flux_module/dyad.c, `dyad_fetch_request_cb` and
-- `dyad_fetch_range_request_cb`. What Flux, the transport and the system answer are arguments.
pub mod Replies
pub mod RangeReplies
mod Tests
use dyad.Prelude.{
  ℕ, zero, suc, ◌+◌, ◌*◌, ◌/◌, ◌%◌, ◌^◌, Bool, true, false, not, ◌&&◌, ◌||◌, List, [], ◌∷◌, ◌++◌,
  Option, none, some, leb, ltb, ◌==◌, if◌then◌else◌, length,
}
use dyad.Prelude.Run.{Run, returned, fault}
use dyad.Core.Codes.{Rc, rc_ok, rc_badfio, is_error}
use dyad.RangeCache.{Files, Answers, content, read_at, dyad_range_cache_ensure}
use dyad.Client.Store.{granularity}
use dyad.Service.{
  WorkItem, Reader, Reads, read_all, read_failed, out_of_fuel, read_chunks, clamped, is_negative,
}

abbrev pub eproto : ℕ
eproto = 71

abbrev pub econnrefused : ℕ
econnrefused = 111

abbrev pub ecomm : ℕ
ecomm = 70

abbrev pub eio : ℕ
eio = 5

abbrev pub enomem : ℕ
enomem = 12

-- `errno` is what a failed call leaves there, where the code does not set it, and `garbage` the bytes of
-- a buffer of a size that nothing was read into.
pub record RequestCalls : Type 0 where
  pub streaming : Bool
  pub userid : Bool
  pub unpack : Rc
  pub respond : Rc
  pub open_file : Bool
  pub shared_lock : Rc
  pub get_buffer : Rc
  pub pread : Reader
  pub fuel : ℕ
  pub connect : Rc
  pub send : Rc
  pub errno : ℕ
  pub garbage : ℕ → List ℕ

-- The answer that ends the stream: ENODATA behind the data, or the errno of a failure.
pub data Answer : Type 0 where
  closed : Answer
  failed : ℕ → Answer

-- What a handler holds and has done. `buffer` is a buffer of the transport that is not returned.
pub record Handler : Type 0 where
  pub fd : Bool
  pub locked : Bool
  pub buffer : Bool
  pub sends : List (List ℕ)
  pub answers : List Answer

abbrev pub idle : Handler
idle = record { fd = false; locked = false; buffer = false; sends = []; answers = [] }

-- `fetch_error_wo_flock` and `fetch_error`.
abbrev pub error_wo_flock : ℕ → Handler → Handler
error_wo_flock errno h = record h { answers = failed errno ∷ h.answers }

abbrev pub error_with_flock : ℕ → Handler → Handler
error_with_flock errno h = error_wo_flock errno (record h { fd = false; locked = false })

-- The message is checked and acknowledged; an errno where that fails.
unfoldable pub receive : RequestCalls → Option ℕ
receive os =
    if not os.streaming
    then some eproto
    else if not os.userid
    then some os.errno
    else if is_error os.unpack
    then some eproto
    else if is_error os.respond
    then some os.errno
    else none

-- A short file is read by one call, a longer one in a loop.
unfoldable pub read_bytes : Reader → ℕ → List ℕ → ℕ → ℕ → Reads
read_bytes pread fuel file offset len =
    if ltb len granularity
    then elim (pread 0 len) [
      | none ↦ read_failed
      | some k ↦ if k == len then read_all (read_at offset k file) else read_failed
    ]
    else read_chunks fuel pread 0 file offset len 0 []

-- The send, behind the unlock and the close of the file.
abbrev pub transmit : RequestCalls → List ℕ → Handler → Handler
transmit os bytes h =
    let unlocked : Handler = record h { fd = false; locked = false } in
    if is_error os.connect
    then error_wo_flock econnrefused unlocked
    else if is_error os.send
    then error_wo_flock ecomm unlocked
    else record unlocked { buffer = false; sends = bytes ∷ h.sends; answers = closed ∷ h.answers }

-- The bytes of a number, the lowest first, as many as `n`.
unfoldable pub le_bytes : ℕ → ℕ → List ℕ
le_bytes zero x = []
le_bytes (suc n) x = (x % 256) ∷ le_bytes n (x / 256)

-- In a build with UCX the size of the file stands before its bytes, as a ssize_t.
abbrev pub prefix : Bool → ℕ → List ℕ
prefix ucx file_size = if ucx then le_bytes 8 file_size else []

-- `dyad_fetch_request_cb` from the opening of the file on; `none` wants more fuel. The answer of
-- `get_buffer` is not looked at: without a buffer the reads go through NULL.
unfoldable pub serve_file : Bool → RequestCalls → List ℕ → Option (Run Handler)
unfolding read_bytes
serve_file ucx os file =
    let file_size = length file in
    let opened : Handler = record idle { fd = true } in
    let holding : Handler = record opened { locked = true; buffer = true } in
    if not os.open_file
    then some (returned (error_wo_flock os.errno idle))
    else if is_error os.shared_lock
    then some (returned (error_with_flock os.errno opened))
    else if is_error os.get_buffer
    then (if ucx || ltb 0 file_size
        then some fault
        else some (returned (error_with_flock os.errno (record opened { locked = true }))))
    else if file_size == 0
    then some (returned (error_with_flock os.errno holding))
    else elim (read_bytes os.pread os.fuel file 0 file_size) [
      | read_all inbuf ↦ some (returned (transmit os (prefix ucx file_size ++ inbuf) holding))
      | read_failed ↦ some (returned (error_with_flock os.errno holding))
      | out_of_fuel ↦ none
    ]

-- `files` has the file of a path below the producer's directory.
unfoldable pub dyad_fetch_request_cb :
    Bool → RequestCalls → (List ℕ → List ℕ) → List ℕ → Option (Run Handler)
unfolding receive serve_file
dyad_fetch_request_cb ucx os files fullpath = elim (receive os) [
  | some errno ↦ some (returned (error_wo_flock errno idle))
  | none ↦ serve_file ucx os (files fullpath)
]

-- `can_detach` is `rpc_detach_request != NULL`.
pub record RangeRequestCalls : Type 0 where
  pub os : RequestCalls
  pub can_detach : Bool
  pub calloc : Bool
  pub detach : Rc
  pub ensure : Answers

-- A handler that has replied, or has given an item to the workers. `aborts` are the calls of
-- `rpc_abort_detached`.
pub data Handled : Type 0 where
  replied : Handler → ℕ → Handled
  queued : WorkItem → Handled

-- The item for the workers. `none` at `origin` is a context without `origin_path`.
unfoldable pub queue_range : RangeRequestCalls → List ℕ → Option (List ℕ) → ℕ → ℕ → Handled
queue_range r fullpath origin offset len =
    let item : WorkItem = record {
      fullpath = fullpath;
      origin_fullpath = origin;
      offset = offset;
      range_length = len;
      inbuf = [];
      rc = rc_ok;
      range_len = 0;
    } in
    if not r.calloc
    then replied (error_wo_flock enomem idle) 0
    else if is_error r.detach
    then replied (error_wo_flock eproto idle) 0
    else if is_error r.os.get_buffer
    then replied (error_wo_flock enomem idle) 1
    else queued item

-- The fully synchronous path, from the opening of the file on. Where `range_len` is negative, nothing is
-- read, and `(size_t)range_len` bytes of the buffer are sent.
unfoldable pub serve_range : RequestCalls → ℕ → ℕ → List ℕ → Option Handler
unfolding clamped read_bytes
serve_range os offset len file =
    let range_len = clamped offset len (length file) in
    let opened : Handler = record idle { fd = true } in
    let locked : Handler = record opened { locked = true } in
    let holding : Handler = record locked { buffer = true } in
    if not os.open_file
    then some (error_wo_flock os.errno idle)
    else if is_error os.shared_lock
    then some (error_with_flock os.errno opened)
    else if is_error os.get_buffer
    then some (error_with_flock os.errno locked)
    else if is_negative range_len
    then some (transmit os (os.garbage range_len) holding)
    else if range_len == 0
    then some (transmit os [] holding)
    else elim (read_bytes os.pread os.fuel file offset range_len) [
      | read_all inbuf ↦ some (transmit os inbuf holding)
      | read_failed ↦ some (error_with_flock os.errno holding)
      | out_of_fuel ↦ none
    ]

abbrev pub replies : Option Handler → Option Handled
replies none = none
replies (some h) = some (replied h 0)

unfoldable pub dyad_fetch_range_request_cb :
    RangeRequestCalls → ℕ → List ℕ → Option (List ℕ) → ℕ → ℕ → Files → Run (Files × Option Handled)
unfolding receive queue_range serve_range
dyad_fetch_range_request_cb r num_fetch_workers fullpath origin offset len fs =
    elim (receive r.os) [
      | some errno ↦ returned (fs, some (replied (error_wo_flock errno idle) 0))
      | none ↦
          if r.can_detach && ltb 0 num_fetch_workers
          then returned (fs, some (queue_range r fullpath origin offset len))
          else elim origin [
            | none ↦ returned (fs, replies (serve_range r.os offset len (content fs.local_file)))
            | some path ↦
                elim (dyad_range_cache_ensure r.ensure fullpath (some path) offset len fs) [
                  | fault ↦ fault
                  | returned e ↦
                      if is_error e.1
                      then returned (e.0, some (replied (error_wo_flock eio idle) 0))
                      else returned
                          (e.0, replies (serve_range r.os offset len (content e.0.local_file)))
                ]
          ]
    ]
