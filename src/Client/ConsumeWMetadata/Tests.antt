-- ===== src/Client/ConsumeWMetadata/Tests.antt =====
-- A file whose data cannot be fetched.
use dyad.Prelude.{◌≡◌, refl, [], none, some, arith, true, false}
use dyad.Prelude.Run.{returned}
use dyad.Core.Codes.{Rc, rc_ok, rc_badrpc}
use dyad.Core.Context.{Ctx}
use dyad.Core.Samples.{sample_ctx}
use dyad.Utils.Paths.Samples.{side}
use dyad.Client.Store.{Writer}
use dyad.Client.Store.Writes.{Steady}
use dyad.Client.Consume.{Hands, Calls}
use dyad.Client.ConsumeWMetadata.{dyad_consume_w_metadata, w_opened, w_transfer}
use dyad.Client.ConsumeWMetadata.Leaks.{WEnded, dyad_consume_w_metadata_lem}

abbrev writes_all : Writer
writes_all call n = some n

writes_all-Steady : Steady writes_all
writes_all-Steady call n pos = (n, refl, pos, omega arith)

abbrev calls : Calls
calls = record {
  open_lock = true;
  excl_lock = rc_ok;
  file_size = 0;
  fetch = (rc_ok, true);
  get_data = (rc_badrpc, none);
  open_io = true;
  makes_dir = true;
  write = writes_all;
  fuel = 3;
  close_io = true;
  close_lock = true;
}

abbrev ctx : Ctx
ctx = record sample_ctx { cons = side }

leaves_open :
    dyad_consume_w_metadata calls (some ctx) true
    ≡ some (
        returned (
          record {
            lock_fd = true;
            locked = false;
            io_fd = false;
            buffer = false;
            mdata = false;
            stored = [];
            evicts = false;
            reenter = true;
          },
          rc_badrpc,
        ))
unfolding dyad_consume_w_metadata w_opened w_transfer
leaves_open = refl

dyad_consume_w_metadata_lem_example :
    (r : Hands × Rc) × (dyad_consume_w_metadata calls (some ctx) true ≡ some (returned r))
    × WEnded calls r.0 r.1
dyad_consume_w_metadata_lem_example =
    dyad_consume_w_metadata_lem calls ctx writes_all-Steady (omega arith) refl (λ e. cc)
