-- ===== src/Dtl/Flux/References.antt =====
-- The references that the module takes on messages belong to its detached requests.
use dyad.Prelude.{
  ℕ, ◌+◌, ◌≤◌, ◌<◌, ◌==◌, ◌≡◌, ◌≢◌, refl, sym, ap, subst, ◌∙◌, Bool, true, false, List, [], ◌∷◌,
  Option, none, some, if◌then◌else◌, arith, if-lem,
}
use dyad.Prelude.Run.{Run, returned, ◌>>=◌}
use dyad.Dtl.Flux.{
  ReqState, Module, release, state_at, without, incref, let_go, decref, respond_raw, detach_request,
  send_detached, abort_detached,
}
use dyad.Core.Codes.{rc_ok}

abbrev pub one : ℕ → ℕ → ℕ
one m k = if m == k then 1 else 0

abbrev pub one_of : Option ℕ → ℕ → ℕ
one_of none k = 0
one_of (some m) k = one m k

-- The references on a message.
abbrev pub count : ℕ → List ℕ → ℕ
count k [] = 0
count k (ref ∷ refs) = one ref k + count k refs

-- The detached requests of a message.
abbrev pub holders : ℕ → List ReqState → ℕ
holders k [] = 0
holders k (s ∷ states) = one_of s.msg k + holders k states

-- As many references on each message as there are detached requests of it.
abbrev pub Counted : Module → Type 0
Counted w = (k : ℕ) → count k w.refs ≡ holders k w.states

pub one_self : (m : ℕ) → one m m ≡ 1
one_self m = ground arith

-- A reference that there is can be released.
release-count :
    (m : ℕ) (refs : List ℕ)
    → 0 < count m refs
    → (kept : List ℕ) × (release m refs ≡ some kept)
      × ((k : ℕ) → count k refs ≡ one m k + count k kept)
unfolding release
release-count m [] h = absurd (omega (arith, h))
release-count m (ref ∷ refs) h =
    if-lem
      (λ o.
        (kept : List ℕ) × (o ≡ some kept)
        × ((k : ℕ) → count k (ref ∷ refs) ≡ one m k + count k kept))
      (ref == m) (λ same. (refs, refl, (λ k. ground arith)))
      (λ differs.
        let other : one ref m ≡ 0 = ground arith in
        let (kept, releases, counts) = release-count m refs (omega (arith, h, other)) in
        (ref ∷ kept, rw releases refl, (λ k. omega (arith, counts k))))

pub state_at-without :
    (address : ℕ) (states : List ReqState) (s : ReqState)
    → state_at address states ≡ some s
    → (s.address ≡ address)
      × ((k : ℕ) → holders k states ≡ one_of s.msg k + holders k (without address states))
unfolding state_at without
state_at-without address [] s h = cc
state_at-without address (t ∷ states) s h =
    if-lem
      (λ o.
        o ≡ some s
        → (s.address ≡ address)
          × ((k : ℕ)
              → holders k (t ∷ states)
                ≡ one_of s.msg k
                  + holders k
                      (if t.address == address then states else t ∷ without address states)))
      (t.address == address)
      (λ same e.
        let found : t ≡ s = ap (λ o. elim o [ none ↦ t | some u ↦ u ]) e in
        (
          subst (λ u. u.address ≡ address) found (ground arith),
          (λ k. rw same (ap (λ u. one_of u.msg k + holders k states) found)),
        ))
      (λ differs e.
        let (here, counts) = state_at-without address states s e in
        (here, (λ k. rw differs (omega (arith, counts k)))))
      h

pub state_at-without_other :
    (a b : ℕ) (states : List ReqState) → a ≢ b → state_at b (without a states) ≡ state_at b states
unfolding state_at without
state_at-without_other a b [] apart = refl
state_at-without_other a b (s ∷ states) apart =
    if-lem (λ l. state_at b l ≡ state_at b (s ∷ states)) (s.address == a)
      (λ same. let other : (s.address == b) ≡ false = ground arith in rw (state_at, other) refl)
      (λ differs.
        ap (λ o. if s.address == b then some s else o) (state_at-without_other a b states apart))

decref_lem :
    (o : Option ℕ) (w : Module)
    → ((k : ℕ) → one_of o k ≤ count k w.refs)
    → (refs : List ℕ) × (decref o w ≡ returned (record w { refs = refs }))
      × ((k : ℕ) → count k w.refs ≡ one_of o k + count k refs)
decref_lem none w h = (w.refs, refl, (λ k. omega arith))
decref_lem (some m) w h =
    let (refs, releases, left) = release-count m w.refs (omega (arith, h m, one_self m)) in
    (refs, rw (decref, releases) refl, left)

abbrev unlisted : ReqState → Run Module → Run Module
unlisted s m = m >>= λ freed. returned (record freed { states = without s.address freed.states })

-- A live request lets go of its reference.
pub let_go_lem :
    (s : ReqState) (w : Module)
    → Counted w
    → state_at s.address w.states ≡ some s
    → (refs : List ℕ) × (let_go s w
        ≡ returned (record w { refs = refs; states = without s.address w.states }))
      × ((k : ℕ) → count k refs ≡ holders k (without s.address w.states))
      × ((k : ℕ) → count k w.refs ≡ one_of s.msg k + count k refs)
let_go_lem s w counted live =
    let (_, counts) = state_at-without s.address w.states s live in
    let (refs, releases, left) = decref_lem s.msg w (λ k. omega (arith, counted k, counts k)) in
    (refs, ap (unlisted s) releases, (λ k. omega (arith, counted k, counts k, left k)), left)

-- `flux_respond_raw` leaves the requests and the references.
pub respond_raw-states :
    (responds : Bool) (o : Option ℕ) (buf : List ℕ) (w : Module)
    → ((respond_raw responds o buf w).0.states ≡ w.states)
      × ((respond_raw responds o buf w).0.refs ≡ w.refs)
      × ((respond_raw responds o buf w).0.next ≡ w.next)
respond_raw-states responds none buf w = (refl, refl, refl)
respond_raw-states true (some m) buf w = (refl, refl, refl)
respond_raw-states false (some m) buf w = (refl, refl, refl)

-- A live request is finished: its reference and its state go.
abbrev pub Finished : Module → ReqState → Module → Type 0
Finished w s w' =
    (w'.states ≡ without s.address w.states)
    × Counted w'
    × ((k : ℕ) → count k w.refs ≡ one_of s.msg k + count k w'.refs)
    × (w'.next ≡ w.next)

lets_go_sent :
    (responds : Bool) (buf : List ℕ) (w : Module) (s : ReqState)
    → Counted w
    → state_at s.address w.states ≡ some s
    → (w' : Module) × (let_go s (respond_raw responds s.msg buf w).0 ≡ returned w')
      × (w'.responses ≡ (respond_raw responds s.msg buf w).0.responses)
      × Finished w s w'
lets_go_sent responds buf w s counted live =
    let sent = (respond_raw responds s.msg buf w).0 in
    let (same_states, same_refs, same_next) = respond_raw-states responds s.msg buf w in
    let (refs, lets_go, counts, left) =
      let_go_lem s sent (λ k. ap (count k) same_refs ∙ counted k ∙ sym (ap (holders k) same_states))
        (ap (state_at s.address) same_states ∙ live) in
    (
      record sent { refs = refs; states = without s.address sent.states },
      lets_go,
      refl,
      (
        ap (without s.address) same_states,
        (λ k. counts k),
        (λ k. sym (ap (count k) same_refs) ∙ left k),
        same_next,
      ),
    )

pub send_detached-live :
    (responds : Bool) (address : ℕ) (buf : List ℕ) (w : Module) (s : ReqState)
    → Counted w
    → state_at address w.states ≡ some s
    → (w' : Module) × (send_detached responds address buf w
        ≡ returned (w', (respond_raw responds s.msg buf w).1))
      × (w'.responses ≡ (respond_raw responds s.msg buf w).0.responses)
      × Finished w s w'
unfolding send_detached
send_detached-live responds address buf w s counted live =
    let (here, _) = state_at-without address w.states s live in
    let (w', lets_go, same, rest) =
      lets_go_sent responds buf w s counted (ap (λ a. state_at a w.states) here ∙ live) in
    (w', rw (send_detached, live, lets_go) refl, same, rest)

pub abort_detached-live :
    (address : ℕ) (w : Module) (s : ReqState)
    → Counted w
    → state_at address w.states ≡ some s
    → (w' : Module) × (abort_detached address w ≡ returned (w', rc_ok)) × Finished w s w'
unfolding abort_detached
abort_detached-live address w s counted live =
    let (here, _) = state_at-without address w.states s live in
    let (refs, lets_go, counts, left) =
      let_go_lem s w counted (ap (λ a. state_at a w.states) here ∙ live) in
    (
      record w { refs = refs; states = without s.address w.states },
      rw (abort_detached, live, lets_go) refl,
      (refl, counts, left, refl),
    )

incref-count :
    (o : Option ℕ) (refs : List ℕ) (k : ℕ) → count k (incref o refs) ≡ one_of o k + count k refs
incref-count none refs k = omega arith
incref-count (some m) refs k = refl

pub detach_request-Counted :
    (malloc_ok : Bool) (w : Module) → Counted w → Counted (detach_request malloc_ok w).0
unfolding detach_request
detach_request-Counted false w counted = counted
detach_request-Counted true w counted =
    let flux = w.flux in λ k. omega (arith, incref-count flux.msg w.refs k, counted k)
