-- ===== src/Core/Init/Stages.antt =====
-- The context while `dyad_init` fills it, and how a stage of it ends: it goes on, or it jumps to
-- `init_region_finish` or to `init_region_failed` with the code so far.
use dyad.Prelude.{ℕ, Bool, List, Option}
use dyad.Core.Codes.{Rc}
use dyad.Core.Context.{Ctx}
use dyad.Cache.Policy.{Policy}

pub record Context : Type 0 where
  pub ctx : Ctx
  pub initialized : Bool
  pub kvs_namespace : Option (List ℕ)
  pub cache_policy : Option Policy

pub data Stage {ℓ} (A : Type ℓ) : Type ℓ where
  goes : A → Stage A
  finish : Context → Rc → Stage A
  failed : Context → Rc → Stage A

infixl 5 ◌>>=◌ ◌>>◌
abbrev pub ◌>>=◌ {ℓ κ} : {A : Type ℓ} {B : Type κ} → Stage A → (A → Stage B) → Stage B
goes a >>= f = f a
finish c rc >>= f = finish c rc
failed c rc >>= f = failed c rc

abbrev pub ◌>>◌ {ℓ κ} : {A : Type ℓ} {B : Type κ} → Stage A → Stage B → Stage B
m >> k = m >>= λ _. k

-- What holds when a stage goes on, and of the code with which it finishes before.
abbrev pub Post {ℓ} : {A : Type ℓ} → (A → Type 0) → (Context → Rc → Type 0) → Stage A → Type 0
Post P Q (goes a) = P a
Post P Q (finish c rc) = Q c rc
Post P Q (failed c rc) = Unit {0}

pub Post-bind {ℓ κ} :
    {A : Type ℓ} {B : Type κ} (P : A → Type 0) (P' : B → Type 0) (Q : Context → Rc → Type 0)
    (m : Stage A) (f : A → Stage B)
    → Post P Q m
    → ((a : A) → P a → Post P' Q (f a))
    → Post P' Q (m >>= f)
Post-bind P P' Q (goes a) f p next = next a p
Post-bind P P' Q (finish c rc) f p next = p
Post-bind P P' Q (failed c rc) f p next = tt
