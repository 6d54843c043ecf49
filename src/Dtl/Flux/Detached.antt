-- ===== src/Dtl/Flux/Detached.antt =====
-- A detached request keeps its message while other requests come and go.
use dyad.Prelude.{
  ℕ, ◌+◌, ◌==◌, ◌≡◌, ◌≢◌, refl, ap, sym, subst, ◌∙◌, inl, inr, true, List, [], ◌∷◌, some, arith,
}
use dyad.Prelude.Run.{Run, returned, fault, ◌>>=◌}
use dyad.Core.Codes.{rc_ok}
use dyad.Dtl.Flux.{
  ReqState, Module, Jansson, state_at, without, respond_raw, detach_request, send_detached,
}
use dyad.Dtl.Flux.Calls.{Call, run}
use dyad.Dtl.Flux.References.{
  Counted, count, one, one_of, send_detached-live, detach_request-Counted,
}
use dyad.Dtl.Flux.Runs.{finishes, Keeps, call_part-Goes}

-- No call of the list finishes the request at the address.
abbrev pub Untouched : ℕ → List Call → Type 0
Untouched address [] = Unit {0}
Untouched address (c ∷ calls) = (finishes c ≢ some address) × Untouched address calls

abbrev pub state_of : Module → ReqState
state_of w = let flux = w.flux in record { address = w.next; msg = flux.msg }

module _ {Json : Type 0} (jansson : Jansson Json) (payload : ℕ → Json) where
  run-Keeps :
      (calls : List Call) (s : ReqState) (w w' : Module)
      → Counted w
      → Keeps s w
      → Untouched s.address calls
      → run jansson payload calls w ≡ returned w'
      → Counted w' × Keeps s w'
  unfolding run
  run-Keeps [] s w w' counted keeps untouched runs =
      subst (λ v. Counted v × Keeps s v) (ap (λ m. elim m [ returned v ↦ v | fault ↦ w ]) runs)
        (counted, keeps)
  run-Keeps (c ∷ calls) s w w' counted keeps (apart, untouched) runs =
      elim (call_part-Goes jansson payload c w counted) [
        | inl (w₂, goes, counted₂, keeps₂) ↦
            run-Keeps calls s w₂ w' counted₂ (keeps₂ s apart keeps) untouched
              (ap (λ m. m >>= run jansson payload calls) (sym goes) ∙ runs)
        | inr (faults, dead) ↦
            let both : ◌≡◌ {A = Run Module} fault (returned w') =
              ap (λ m. m >>= run jansson payload calls) (sym faults) ∙ runs in
            cc
      ]

  -- The module takes a reference for each detached request, and has unpacked the message `msg`. When
  -- `dyad_dtl_flux_detach_request` gets memory, and then other calls run that do not finish the
  -- request it has made, whatever messages they unpack, `dyad_dtl_flux_send_detached`, whose
  -- call of Flux succeeds, responds to `msg`, and gives back the one reference and the state of that
  -- request.
  pub detach_request-send_detached :
      (calls : List Call) (w w' : Module) (msg : ℕ) (buf : List ℕ)
      → Counted w
      → w.flux.msg ≡ some msg
      → Untouched w.next calls
      → run jansson payload calls (detach_request true w).0 ≡ returned w'
      → ((detach_request true w).1 ≡ some w.next)
        × ((detach_request true w).2 ≡ rc_ok)
        × (w'' : Module) × (send_detached true w.next buf w' ≡ returned (w'', rc_ok))
        × (w''.responses ≡ (msg, buf) ∷ w'.responses)
        × (w''.states ≡ without w.next w'.states)
        × ((k : ℕ) → count k w'.refs ≡ one msg k + count k w''.refs)
  unfolding detach_request state_at
  detach_request-send_detached calls w w' msg buf counted unpacked untouched runs =
      let s = state_of w in
      let same : (w.next == w.next) ≡ true = ground arith in
      let (counted', (there, _)) =
        run-Keeps calls s (detach_request true w).0 w' (detach_request-Counted true w counted)
          (rw same refl, omega arith) untouched runs in
      let (w'', done, responds, (fewer, _, left, _)) =
        send_detached-live true w.next buf w' s counted' there in
      (
        refl,
        refl,
        w'',
        done ∙ ap (λ o. returned (w'', (respond_raw true o buf w').1)) unpacked,
        responds ∙ ap (λ o. (respond_raw true o buf w').0.responses) unpacked,
        fewer,
        (λ k. left k ∙ ap (λ o. one_of o k + count k w''.refs) unpacked),
      )
