-- ===== src/Dtl/Flux/Runs.antt =====
-- Sequences of calls of the Flux transport.
use dyad.Prelude.{
  ℕ, ◌==◌, ◌<◌, ◌≡◌, ◌≢◌, refl, ap, sym, ◌∙◌, ◌⊎◌, inl, inr, Bool, true, false, List, [], ◌∷◌, ◌++◌,
  Option, none, some, arith, Option-cases, Option-lem,
}
use dyad.Prelude.Run.{Run, returned, fault, ◌>>=◌}
use dyad.Core.Codes.{Rc}
use dyad.Dtl.Flux.{
  ReqState, Module, Jansson, state_at, without, rpc_unpack, rpc_unpack_range, detach_request,
  send_detached, abort_detached,
}
use dyad.Dtl.Flux.Calls.{
  Call, unpacks, unpacks_range, receives, sends, detaches, sends_detached, aborts, closes,
  call_part, run,
}
use dyad.Dtl.Flux.References.{
  Counted, count, holders, respond_raw-states, send_detached-live, abort_detached-live,
  detach_request-Counted, state_at-without, state_at-without_other,
}

-- The request that a call finishes.
abbrev pub finishes : Call → Option ℕ
finishes (sends_detached responds address buf) = some address
finishes (aborts address) = some address
finishes _ = none

abbrev pub Dead : Module → Call → Type 0
Dead w c = (address : ℕ) × (finishes c ≡ some address) × (state_at address w.states ≡ none)

-- A call returns and keeps the count, or it finishes a request that is not there.
-- The request is there, and its address is not given out again.
abbrev pub Keeps : ReqState → Module → Type 0
Keeps s w = (state_at s.address w.states ≡ some s) × (s.address < w.next)

-- A call returns, and keeps the count and the requests that it does not finish.
abbrev pub Goes : Module → Call → Run Module → Type 0
Goes w c m =
    ((w' : Module) × (m ≡ returned w')
      × Counted w'
      × ((s : ReqState) → finishes c ≢ some s.address → Keeps s w → Keeps s w'))
    ⊎ ((m ≡ fault) × Dead w c)

kept :
    (t : ReqState) (address : ℕ) (w w' : Module)
    → t.address ≡ address
    → w'.states ≡ without t.address w.states
    → w'.next ≡ w.next
    → (s : ReqState) → ◌≢◌ {A = Option ℕ} (some address) (some s.address)
    → Keeps s w
    → Keeps s w'
kept t address w w' here fewer same s apart (there, before) = (
  ap (state_at s.address) fewer
      ∙ state_at-without_other t.address s.address w.states (λ e. apart (ap some (sym here ∙ e)))
      ∙ there,
  omega (arith, before, same),
)

-- `malloc` gives an address that no request has.
kept_new :
    (malloc_ok : Bool) (w : Module) (s : ReqState)
    → Keeps s w
    → Keeps s (detach_request malloc_ok w).0
unfolding detach_request state_at
kept_new false w s keeps = keeps
kept_new true w s (there, before) =
    let other : (w.next == s.address) ≡ false = ground arith in
    (rw (state_at, there, other) refl, omega (arith, before))

module _ {Json : Type 0} (jansson : Jansson Json) (payload : ℕ → Json) where
  pub call_part-Goes :
      (c : Call) (w : Module) → Counted w → Goes w c (call_part jansson payload c w)
  unfolding call_part rpc_unpack rpc_unpack_range
  call_part-Goes (unpacks msg) w counted =
      Option-lem (λ (r : Module × Option (List ℕ) × Rc). Goes w (unpacks msg) (returned r.0))
        (jansson.unpack_path (payload msg)) (λ _. inl (w, refl, counted, (λ s _ keeps. keeps)))
        (λ upath _. inl (_, refl, counted, (λ s _ keeps. keeps)))
  call_part-Goes (unpacks_range msg) w counted =
      Option-lem
        (λ (r : Module × Option (List ℕ × ℕ × ℕ) × Rc). Goes w (unpacks_range msg) (returned r.0))
        (jansson.unpack_range (payload msg)) (λ _. inl (w, refl, counted, (λ s _ keeps. keeps)))
        (λ r _. inl (_, refl, counted, (λ s _ keeps. keeps)))
  call_part-Goes (receives f) w counted = inl (_, refl, counted, (λ s _ keeps. keeps))
  call_part-Goes (sends responds buf) w counted =
      let flux = w.flux in
      let (same_states, same_refs, same_next) = respond_raw-states responds flux.msg buf w in
      inl (
        _,
        refl,
        (λ k. ap (count k) same_refs ∙ counted k ∙ sym (ap (holders k) same_states)),
        (λ s _ keeps.
            (ap (state_at s.address) same_states ∙ keeps.0, omega (arith, keeps.1, same_next))),
      )
  call_part-Goes (detaches malloc_ok) w counted =
      inl (_, refl, detach_request-Counted malloc_ok w counted, (λ s _. kept_new malloc_ok w s))
  call_part-Goes (sends_detached responds address buf) w counted =
      elim (Option-cases (state_at address w.states)) [
        | inl e ↦ inr (rw (send_detached, e) refl, (address, refl, e))
        | inr (s, e) ↦
            let (w', done, _, (fewer, counted', _, same)) =
              send_detached-live responds address buf w s counted e in
            inl (
              w',
              ap (λ m. m >>= λ r. returned r.0) done,
              counted',
              kept s address w w' (state_at-without address w.states s e).0 fewer same,
            )
      ]
  call_part-Goes (aborts address) w counted = elim (Option-cases (state_at address w.states)) [
    | inl e ↦ inr (rw (abort_detached, e) refl, (address, refl, e))
    | inr (s, e) ↦
        let (w', done, (fewer, counted', _, same)) = abort_detached-live address w s counted e in
        inl (
          w',
          ap (λ m. m >>= λ r. returned r.0) done,
          counted',
          kept s address w w' (state_at-without address w.states s e).0 fewer same,
        )
  ]
  call_part-Goes closes w counted = inl (_, refl, counted, (λ s _ keeps. keeps))

  -- From a module that has as many references on each message as it has detached requests of it, any
  -- sequence of calls returns with the same true of what it leaves, or it faults at a call that finishes
  -- a request which is not detached, or is finished already.
  pub run_lem :
      (calls : List Call) (w : Module)
      → Counted w
      → ((w' : Module) × (run jansson payload calls w ≡ returned w') × Counted w')
        ⊎ ((run jansson payload calls w ≡ fault)
            × (before : List Call) × (c : Call) × (after : List Call) × (w' : Module) × (calls
                ≡ before ++ c ∷ after)
            × (run jansson payload before w ≡ returned w')
            × Counted w'
            × Dead w' c)
  unfolding run
  run_lem [] w counted = inl (w, refl, counted)
  run_lem (c ∷ calls) w counted = elim (call_part-Goes c w counted) [
    | inr (part, dead) ↦ inr (rw part refl, [], c, calls, w, refl, refl, counted, dead)
    | inl (w', part, counted', _) ↦ elim (run_lem calls w' counted') [
      | inl (w'', rest, counted'') ↦ inl (w'', rw part rest, counted'')
      | inr (faults, before, d, after, w'', e, rest, counted'', dead) ↦ inr (
        rw part faults,
        c ∷ before,
        d,
        after,
        w'',
        ap (λ l. c ∷ l) e,
        rw part rest,
        counted'',
        dead,
      )
    ]
  ]
