-- ===== src/Utils/Paths/Filter.antt =====
-- The hash comparison in `cmp_canonical_path_prefix` saves work and changes no answer.
use dyad.Prelude.{
  ℕ, ◌≡◌, ◌≢◌, refl, sym, ap, ◌∙◌, ◌⊎◌, inl, inr, Bool, false, List, [], ◌∷◌, Option, none, some,
  arith, ◌==◌, if◌then◌else◌, length, take, take_all, length-take, Option-cases,
}
use dyad.Prelude.Run.{returned, fault}
use dyad.Core.Context.{Side, Ctx}
use dyad.Utils.Strings.{CStr, extract_user_path}
use dyad.Utils.Strings.Compare.{strncmp_eq-take}
use dyad.Utils.Strings.Extract.{extract_user_path-starts}
use dyad.Utils.Paths.{
  Hash128, Frame, path_delim, dyad_seed, hash_str, hash_path_prefix, try_prefix, try_side,
  cmp_canonical_path_prefix, or_try,
}

-- The user path under one prefix, with no hash; there is none under NULL.
abbrev pub user_path_in : Frame → Option CStr → CStr → Option (List ℕ)
user_path_in f none path = none
user_path_in f (some p) path =
    extract_user_path p path (some (path_delim f)) f.upath f.upath_capacity

abbrev pub or_else : Option (List ℕ) → Option (List ℕ) → Option (List ℕ)
or_else none other = other
or_else (some u) other = some u

abbrev pub user_path : Frame → Side → CStr → Option (List ℕ)
user_path f side path =
    or_else (user_path_in f side.managed_path path) (user_path_in f side.real_path path)

-- The answer with no hashes: the path as given, then its real path if it has one.
abbrev pub managed_user_path : Frame → Side → CStr → Option (List ℕ)
managed_user_path f side path = or_else (user_path f side path) (elim (f.realpath path.text) [
  | none ↦ none
  | some c ↦ user_path f side (record { addr = f.can_addr; text = c })
])

module _ (murmur : List ℕ → ℕ → Hash128) where
  -- The stored length and hash are those of a prefix that is not empty.
  pub record Stored (prefix : Option CStr) (len hash : ℕ) : Type 0 where
    pub path : CStr
    pub is_path : prefix ≡ some path
    pub filled : path.text ≢ []
    pub is_len : len ≡ length path.text
    pub is_hash : hash ≡ hash_str murmur (some path.text) dyad_seed

  -- What `dyad_set_prod_path` and `dyad_set_cons_path` establish.
  pub record IsHashed (side : Side) : Type 0 where
    pub managed : Stored side.managed_path side.managed_len side.managed_hash
    pub real :
        ((side.real_path ≡ none) × (side.real_len ≡ 0))
        ⊎ Stored side.real_path side.real_len side.real_hash

  pos_length : (s : List ℕ) → s ≢ [] → (length s == 0) ≡ false
  pos_length [] h = absurd (h refl)
  pos_length (x ∷ xs) h = ground arith

  -- A text that starts with a prefix has the prefix's hash at its length.
  hash_of_start :
      (p s : List ℕ)
      → p ≢ []
      → take (length p) s ≡ p
      → hash_path_prefix murmur (some s) dyad_seed (length p) ≡ hash_str murmur (some p) dyad_seed
  unfolding hash_path_prefix hash_str
  hash_of_start p s filled starts =
      rw (starts, pos_length p filled) (ground (arith, length-take (length p) s, ap length starts))

  try_prefix_lem :
      (f : Frame) {prefix : Option CStr} {len hash : ℕ} (path : CStr)
      → Stored prefix len hash
      → try_prefix murmur f prefix len hash path ≡ returned (user_path_in f prefix path)
  unfolding try_prefix
  try_prefix_lem f path st =
      rw (st.is_path, st.is_len, st.is_hash)
        (elim (Option-cases answer) [
          | inl e ↦ ground arith
          | inr (u, e) ↦ ground (arith, same_hash u e)
        ])
    where
      p : List ℕ
      p = st.path.text

      answer : Option (List ℕ)
      answer = extract_user_path st.path path (some (path_delim f)) f.upath f.upath_capacity

      same_hash :
          (u : List ℕ)
          → answer ≡ some u
          → hash_path_prefix murmur (some path.text) dyad_seed (length p)
            ≡ hash_str murmur (some p) dyad_seed
      same_hash u e = hash_of_start p path.text st.filled (
          sym (
            strncmp_eq-take p path.text (length p)
              (extract_user_path-starts st.path path _ f.upath f.upath_capacity e))
          ∙ take_all (length p) p (omega arith))

  try_side_lem :
      (f : Frame) (side : Side) (path : CStr)
      → IsHashed side
      → try_side murmur f side path ≡ returned (user_path f side path)
  unfolding try_side
  try_side_lem f side path h = rw (try_prefix_lem f path h.managed) (elim h.real [
    | inl (no_path, no_len) ↦ ground arith
    | inr st ↦ ground (arith, try_prefix_lem f path st, pos_length st.path.text st.filled)
  ])

  then_real :
      (f : Frame) (side : Side)
      → IsHashed side
      → (found real : Option (List ℕ))
      → or_try murmur found (elim real [
        | none ↦ returned none
        | some c ↦ try_side murmur f side (record { addr = f.can_addr; text = c })
      ])
        ≡ returned (
            or_else found (elim real [
              | none ↦ none
              | some c ↦ user_path f side (record { addr = f.can_addr; text = c })
            ]))
  then_real f side h (some u) real = refl
  then_real f side h none none = refl
  then_real f side h none (some c) = try_side_lem f side (record { addr = f.can_addr; text = c }) h

  -- For a side whose stored lengths and hashes are those of its paths, the call meets no NULL, and
  -- its answer is the one that the comparisons give without any hash: under the managed path or its
  -- real path, first for the path as given and then for the path's real path.
  pub cmp_canonical_path_prefix_lem :
      (f : Frame) (ctx : Ctx) (is_prod : Bool) (path : CStr)
      → IsHashed (if is_prod then ctx.prod else ctx.cons)
      → cmp_canonical_path_prefix murmur f (some ctx) is_prod path
        ≡ returned (managed_user_path f (if is_prod then ctx.prod else ctx.cons) path)
  unfolding cmp_canonical_path_prefix
  cmp_canonical_path_prefix_lem f ctx is_prod path h =
      rw (try_side_lem f (if is_prod then ctx.prod else ctx.cons) path h) (
        then_real f (if is_prod then ctx.prod else ctx.cons) h
          (user_path f (if is_prod then ctx.prod else ctx.cons) path) (f.realpath path.text))

  -- With no managed path (a NULL path of length and hash 0, as in a process that has only the other
  -- role), the call reads through NULL whatever the path is.
  cmp_canonical_path_prefix_unset :
      (f : Frame) (ctx : Ctx) (is_prod : Bool) (path : CStr)
      → (if is_prod then ctx.prod else ctx.cons).managed_path ≡ none
      → (if is_prod then ctx.prod else ctx.cons).managed_len ≡ 0
      → (if is_prod then ctx.prod else ctx.cons).managed_hash ≡ 0
      → cmp_canonical_path_prefix murmur f (some ctx) is_prod path ≡ fault
  unfolding cmp_canonical_path_prefix hash_path_prefix
  cmp_canonical_path_prefix_unset f ctx is_prod path no_path no_len no_hash =
      rw (no_path, no_len, no_hash)
