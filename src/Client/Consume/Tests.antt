-- ===== src/Client/Consume/Tests.antt =====
-- The file "/p/a" of three bytes is consumed.
use dyad.Prelude.{ℕ, ◌≡◌, refl, List, [], ◌∷◌, some, arith, true}
use dyad.Prelude.Run.{returned}
use dyad.Core.Codes.{Rc, rc_ok}
use dyad.Core.Context.{Ctx}
use dyad.Core.Samples.{sample_ctx, length_hash}
use dyad.Utils.Strings.{extract_user_path, strncmp_eq, c_text, ends_with, apart}
use dyad.Utils.Paths.Filter.{managed_user_path}
use dyad.Utils.Paths.Samples.{asked, frame, side, side-IsHashed}
use dyad.Client.Store.{Writer}
use dyad.Client.Store.Writes.{Steady}
use dyad.Client.Consume.{Hands, Calls, dyad_consume}
use dyad.Client.Consume.Ends.{Ended, dyad_consume_lem}
use dyad.Client.Consume.Transfer.{Succeeds}

abbrev three : List ℕ
three = 1 ∷ 2 ∷ 3 ∷ []

abbrev writes_all : Writer
writes_all call n = some n

writes_all-Steady : Steady writes_all
writes_all-Steady call n pos = (n, refl, pos, omega arith)

abbrev calls : Calls
calls = record {
  open_lock = true;
  excl_lock = rc_ok;
  file_size = 0;
  fetch = (rc_ok, true);
  get_data = (rc_ok, some three);
  open_io = true;
  makes_dir = true;
  write = writes_all;
  fuel = 3;
  close_io = true;
  close_lock = true;
}

calls-Succeeds : Succeeds calls three
calls-Succeeds = record {
  open_lock = refl;
  excl_lock = refl;
  file_size = refl;
  fetch = refl;
  get_data = refl;
  open_io = refl;
  makes_dir = refl;
  steady = writes_all-Steady;
  small = λ _. refl;
  enough = omega arith;
  close_io = refl;
  close_lock = refl;
}

abbrev ctx : Ctx
ctx = record sample_ctx { cons = side }

is_managed : managed_user_path frame side asked ≡ some (b'a' ∷ [])
unfolding extract_user_path strncmp_eq c_text ends_with apart
is_managed = refl

dyad_consume_lem_example :
    (r : Hands × Rc) × (dyad_consume length_hash frame calls (some ctx) asked ≡ some (returned r))
    × Ended calls r.0 r.1
dyad_consume_lem_example =
    dyad_consume_lem length_hash frame calls ctx asked side-IsHashed (λ _. omega arith)
      writes_all-Steady (omega arith)
