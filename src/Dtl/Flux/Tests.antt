-- ===== src/Dtl/Flux/Tests.antt =====
-- Message 7 asks for 4 bytes of "a" from byte 2 ^ 63 on, message 8 for all of it.
use dyad.Prelude.{
  ℕ, ◌+◌, ◌-◌, sym, ◌^◌, ◌==◌, ◌≡◌, refl, ap, ◌⊎◌, true, List, [], ◌∷◌, ◌++◌, Option, none, some,
  if◌then◌else◌, arith,
}
use dyad.Prelude.Integers.{ℤ, pos, negsuc}
use dyad.Prelude.Run.{returned, fault}
use dyad.Core.Codes.{Rc, rc_ok, rc_fluxfail, rc_rpc_finished}
use dyad.Dtl.Flux.{
  Module, Jansson, raw, no_data, Received, release, state_at, without, set_msg, recv,
  rpc_pack_range, rpc_unpack, rpc_unpack_range, detach_request, send_detached, abort_detached,
}
use dyad.Dtl.Flux.Calls.{
  Call, unpacks, unpacks_range, sends, detaches, sends_detached, aborts, closes, call_part, run,
}
use dyad.Dtl.Flux.Ranges.{rpc_pack_range-rpc_unpack_range}
use dyad.Dtl.Flux.References.{Counted, count, one}
use dyad.Dtl.Flux.Runs.{Dead, run_lem}
use dyad.Dtl.Flux.Detached.{Untouched, detach_request-send_detached}

program : Unit {0}
unfolding release state_at without recv rpc_unpack rpc_unpack_range detach_request send_detached
    abort_detached call_part run
program = tt

abbrev Object : Type 0
Object = List ℕ × ℤ × ℤ

abbrev objects : Jansson Object
objects = record {
  pack_path = λ upath. some (upath, pos 0, pos 0);
  unpack_path = λ j. some j.0;
  pack_range = λ upath offset len. some (upath, offset, len);
  unpack_range = λ j. some j;
}

abbrev asked : Object
asked = ((b'a' ∷ []), negsuc (2 ^ 63 - 1), pos 4)

abbrev payload : ℕ → Object
payload msg = if msg == 7 then asked else ((b'a' ∷ []), pos 0, pos 9)

abbrev start : Module
start = record {
  flux = record { f = none; msg = none };
  states = [];
  next = 1;
  refs = [];
  responses = [];
  resets = [];
}

packs : rpc_pack_range objects (b'a' ∷ []) 3 (2 ^ 63) 4 ≡ (some asked, rc_ok)
unfolding rpc_pack_range
packs = refl

rpc_pack_range-rpc_unpack_range_example :
    rpc_unpack_range objects payload 7 start
    ≡ (set_msg (some 7) start, some (b'a' ∷ [], 2 ^ 63, 4), rc_ok)
rpc_pack_range-rpc_unpack_range_example =
    rpc_pack_range-rpc_unpack_range objects payload (b'a' ∷ []) 3 (2 ^ 63) 4 7 asked start
      (λ upath offset len j packed. sym packed) (omega arith) (omega arith) packs refl

abbrev twice : List Call
twice =
    unpacks_range 7
    ∷ detaches true
    ∷ unpacks 8
    ∷ detaches true
    ∷ sends_detached true 2 (5 ∷ [])
    ∷ aborts 1
    ∷ []

run_lem_example :
    ((w' : Module) × (run objects payload twice start ≡ returned w') × Counted w')
    ⊎ ((run objects payload twice start ≡ fault)
        × (before : List Call) × (c : Call) × (after : List Call) × (w' : Module) × (twice
            ≡ before ++ c ∷ after)
        × (run objects payload before start ≡ returned w')
        × Counted w'
        × Dead w' c)
run_lem_example = run_lem objects payload twice start (λ k. refl)

abbrev unpacked : Module
unpacked = record start { flux = record { f = none; msg = some 7 } }

abbrev between : List Call
between = unpacks 8 ∷ sends true (1 ∷ []) ∷ detaches true ∷ aborts 2 ∷ closes ∷ []

abbrev later : Module
later = record start {
  states = record { address = 1; msg = some 7 } ∷ [];
  next = 3;
  refs = 7 ∷ [];
  responses = (8, 1 ∷ []) ∷ [];
}

ran : run objects payload between (detach_request true unpacked).0 ≡ returned later
unfolding program
ran = refl

abbrev of_some : Option ℕ → ℕ
of_some none = 0
of_some (some a) = a

left_alone : Untouched 1 between
left_alone = (
  (λ e. cc),
  (
    (λ e. cc),
    (
      (λ e. cc),
      ((λ e. let two : ◌≡◌ {A = ℕ} 2 1 = ap of_some e in omega (arith, two)), ((λ e. cc), tt)),
    ),
  ),
)

detach_request-send_detached_example :
    ((detach_request true unpacked).1 ≡ some 1)
    × ((detach_request true unpacked).2 ≡ rc_ok)
    × (w'' : Module) × (send_detached true 1 (5 ∷ []) later ≡ returned (w'', rc_ok))
    × (w''.responses ≡ (7, 5 ∷ []) ∷ later.responses)
    × (w''.states ≡ without 1 later.states)
    × ((k : ℕ) → count k later.refs ≡ one 7 k + count k w''.refs)
detach_request-send_detached_example =
    detach_request-send_detached objects payload between unpacked later 7 (5 ∷ []) (λ k. refl) refl
      left_alone ran

sent_twice : run objects payload (twice ++ aborts 1 ∷ []) start ≡ fault
unfolding program
sent_twice = refl

abbrev not_yet : Received
not_yet = record { buf = none; buflen = 0 }

abbrev received : Module
received = record start { flux = record { f = some 4; msg = none } }

abbrev after : Module
after = record received { resets = 4 ∷ [] }

receives_data :
    ◌≡◌ {A = (Module × Received) × Rc}
      (recv true (raw (1 ∷ 2 ∷ [])) not_yet received)
      ((after, record { buf = some (1 ∷ 2 ∷ []); buflen = 2 }), rc_ok)
unfolding program
receives_data = refl

finished :
    ◌≡◌ {A = (Module × Received) × Rc}
      (recv true no_data not_yet received)
      ((after, not_yet), rc_rpc_finished)
unfolding program
finished = refl

no_future :
    ◌≡◌ {A = (Module × Received) × Rc}
      (recv true no_data not_yet start)
      ((start, not_yet), rc_fluxfail)
unfolding program
no_future = refl
