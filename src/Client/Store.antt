-- ===== src/Client/Store.antt =====
-- `dyad_cons_store`: the fetched bytes are written to the file, large ones in chunks.
-- `write (2)` is an argument: the answer to the call with that index, for that many bytes; `none` is
-- -1.
pub mod Writes
mod Tests
use dyad.Prelude.{
  ℕ, zero, suc, ◌+◌, ◌-◌, ◌*◌, ◌^◌, Bool, true, false, not, List, [], ◌∷◌, ◌++◌, Option, none, some,
  leb, ltb, ◌==◌, if◌then◌else◌, length, take, drop, min,
}
use dyad.Prelude.Run.{Run, returned, fault}
use dyad.Core.Codes.{Rc, rc_ok, rc_badfio}

abbrev pub granularity : ℕ
granularity = 1024 * 1024 * 1024

abbrev pub Writer : Type 0
Writer = ℕ → ℕ → Option ℕ

-- How the loop ends; the bytes are those written to the file so far.
pub data Chunks : Type 0 where
  stored : List ℕ → ℕ → Chunks
  stopped : List ℕ → Chunks
  before_buffer : List ℕ → Chunks
  out_of_fuel : Chunks

-- `written_len` is a size_t: -1 is 2 ^ 64 - 1, which is not `<= 0`, and added to `written_data` it
-- takes one away. At 0 the next call reads in front of the buffer.
unfoldable pub store_chunks : ℕ → Writer → ℕ → List ℕ → ℕ → List ℕ → Chunks
store_chunks zero write call file_data written out =
    if leb (length file_data) written then stored out written else out_of_fuel
store_chunks (suc fuel) write call file_data written out =
    let back = store_chunks fuel write (call + 1) file_data (written - 1) out in
    let size = min (length file_data - written) granularity in
    if leb (length file_data) written then stored out written else elim (write call size) [
      | none ↦ if written == 0 then before_buffer out else back
      | some k ↦
          let onward =
            store_chunks fuel write (call + 1) file_data (written + k)
              (out ++ take k (drop written file_data)) in
          if k == 0 then stopped out else onward
    ]

-- The answer for the bytes written by the loop. A call that writes nothing leaves the loop with the
-- code still DYAD_RC_OK. `none` is a run that wants more fuel.
abbrev pub of_chunks : List ℕ → Chunks → Option (Run (List ℕ × Rc))
of_chunks file_data (stored out written) =
    some (returned (out, (if written == length file_data then rc_ok else rc_badfio)))
of_chunks file_data (stopped out) = some (returned (out, rc_ok))
of_chunks file_data (before_buffer out) = some fault
of_chunks file_data out_of_fuel = none

-- One call for fewer bytes than a chunk.
abbrev pub of_write : List ℕ → Option ℕ → List ℕ × Rc
of_write file_data none = ([], rc_badfio)
of_write file_data (some k) =
    (take k file_data, (if k == length file_data then rc_ok else rc_badfio))

-- What was written, from a file position of 0, and the code. The fuel is the rounds of the loop: one
-- for each byte is enough when no call fails.
unfoldable pub dyad_cons_store : ℕ → Bool → Writer → List ℕ → Option (Run (List ℕ × Rc))
unfolding store_chunks
dyad_cons_store fuel makes_dir write file_data =
    if not makes_dir
    then some (returned ([], rc_badfio))
    else if ltb (length file_data) granularity
    then some (returned (of_write file_data (write 0 (length file_data))))
    else of_chunks file_data (store_chunks fuel write 0 file_data 0 [])
