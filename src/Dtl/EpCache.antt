-- ===== src/Dtl/EpCache.antt =====
-- dyad/dtl/ucx_ep_cache.cpp: the endpoints of UCX, in a map by the key of the consumer. An endpoint
-- goes by a number, and has the address that it was created for.
use dyad.Prelude.{ℕ, ◌+◌, Bool, not, List, [], ◌∷◌, Option, none, some, ◌==◌, if◌then◌else◌}
use dyad.Core.Codes.{
  Rc, rc_ok, rc_sysfail, rc_badbuf, rc_notfound, rc_ucxep_fail, rc_ucxcomm_fail, is_error,
}

pub record Endpoint : Type 0 where
  pub number : ℕ
  pub address : List ℕ

-- cache_type
abbrev pub EpCache : Type 0
EpCache = List (ℕ × Endpoint)

-- The endpoints of a worker that are open; `next` is the number of the next one.
pub record Worker : Type 0 where
  pub opened : List Endpoint
  pub next : ℕ

-- `ucp_ep_create` answers an endpoint, unless it fails or gives NULL. `ep` is what the handle has.
abbrev pub ucx_connect : Bool → List ℕ → Option Endpoint → Worker → (Worker × Option Endpoint) × Rc
ucx_connect creates addr ep worker =
    let made : Endpoint = record { number = worker.next; address = addr } in
    if creates
    then ((record { opened = made ∷ worker.opened; next = worker.next + 1 }, some made), rc_ok)
    else ((worker, ep), rc_ucxcomm_fail)

unfoldable pub closed : ℕ → List Endpoint → List Endpoint
closed number [] = []
closed number (e ∷ opened) =
    let rest = closed number opened in if e.number == number then opened else e ∷ rest

-- `closes` is whether the endpoint is closed with UCS_OK; in any case it can no longer be used.
abbrev pub ucx_disconnect : Bool → Worker → Endpoint → Worker × Rc
ucx_disconnect closes worker ep =
    let gone : Worker = record worker { opened = closed ep.number worker.opened } in
    if closes then (gone, rc_ok) else (gone, rc_ucxep_fail)

-- `cache` is what the pointer has, and `allocates` whether there is memory for a map.
abbrev pub dyad_ucx_ep_cache_init : Bool → Option EpCache → Option EpCache × Rc
dyad_ucx_ep_cache_init allocates (some cache) = (some cache, rc_badbuf)
dyad_ucx_ep_cache_init allocates none = if allocates then (some [], rc_ok) else (none, rc_sysfail)

unfoldable pub find : ℕ → EpCache → Option Endpoint
find key [] = none
find key ((k, ep) ∷ cache) = let rest = find key cache in if k == key then some ep else rest

abbrev pub dyad_ucx_ep_cache_find : ℕ → EpCache → Option Endpoint → Option Endpoint × Rc
dyad_ucx_ep_cache_find key cache (some ep) = (some ep, rc_badbuf)
dyad_ucx_ep_cache_find key cache none = elim (find key cache) [
  | none ↦ (none, rc_notfound)
  | some ep ↦ (some ep, rc_ok)
]

-- What the worker, the map and the endpoint of the handle are behind a call.
pub record Connected : Type 0 where
  pub worker : Worker
  pub cache : EpCache
  pub ep : Option Endpoint

-- `stores` is whether `insert_or_assign` has memory; where it throws, the endpoint stays open, and in
-- the handle.
abbrev pub connected : Bool → ℕ → EpCache → (Worker × Option Endpoint) × Rc → Connected × Rc
connected stores key cache ((worker, none), rc) =
    (record { worker = worker; cache = cache; ep = none }, rc)
connected stores key cache ((worker, some ep), rc) =
    if is_error rc
    then (record { worker = worker; cache = cache; ep = some ep }, rc)
    else if not stores
    then (record { worker = worker; cache = cache; ep = some ep }, rc_sysfail)
    else (record { worker = worker; cache = (key, ep) ∷ cache; ep = some ep }, rc_ok)

-- The map has an endpoint for the key, or one is created.
abbrev pub dyad_ucx_ep_cache_insert : Bool → Bool → ℕ → List ℕ → Connected → Connected × Rc
dyad_ucx_ep_cache_insert creates stores key addr c = elim (find key c.cache) [
  | none ↦ connected stores key c.cache (ucx_connect creates addr c.ep c.worker)
  | some ep ↦ (c, rc_ok)
]

unfoldable pub erase : ℕ → EpCache → EpCache
erase key [] = []
erase key ((k, ep) ∷ cache) =
    let rest = erase key cache in if k == key then cache else (k, ep) ∷ rest

-- The answer of the disconnection is not looked at.
abbrev pub dyad_ucx_ep_cache_remove :
    (Endpoint → Bool) → ℕ → EpCache → Worker → (EpCache × Worker) × Rc
dyad_ucx_ep_cache_remove closes key cache worker = elim (find key cache) [
  | none ↦ ((cache, worker), rc_ok)
  | some ep ↦ ((erase key cache, (ucx_disconnect (closes ep) worker ep).0), rc_ok)
]

-- All endpoints of the map, in the order in which it gives them.
unfoldable pub disconnect_all : (Endpoint → Bool) → EpCache → Worker → Worker
disconnect_all closes [] worker = worker
disconnect_all closes ((key, ep) ∷ cache) worker =
    disconnect_all closes cache (ucx_disconnect (closes ep) worker ep).0

abbrev pub dyad_ucx_ep_cache_finalize :
    (Endpoint → Bool) → Option EpCache → Worker → (Option EpCache × Worker) × Rc
dyad_ucx_ep_cache_finalize closes none worker = ((none, worker), rc_ok)
dyad_ucx_ep_cache_finalize closes (some cache) worker =
    ((none, disconnect_all closes cache worker), rc_ok)
