-- ===== src/Utils/Strings/Extract.antt =====
-- What `extract_user_path` accepts, and that it undoes `concat_str`.
use dyad.Prelude.{
  ℕ, ◌+◌, ◌-◌, ◌≤◌, ◌<◌, ◌≡◌, Option, not, leb, ltb, ◌≢◌, ◌↔◌, refl, sym, ap, ◌∙◌, ◌⊎◌, inl, inr,
  true, false, List, [], ◌∷◌, ◌++◌, some, none, arith, length, take, drop, if◌then◌else◌,
  length-append, length-take, take-drop_end, drop-append_self, take_all, Bool-cases,
  take-append-drop,
}
use mathlib.Core.List.{append_assoc}
use dyad.Utils.Strings.{CStr, extract_user_path, apart, ends_with, strncmp_eq, path_max}
use dyad.Utils.Strings.Compare.{
  ends_with_sound, strncmp_eq-take, strncmp_eq-append, append-strncmp_eq,
}
use dyad.Utils.Strings.Concat.{strip_end}

-- `s` is the stripped text and what the strip removes.
strip_end-cases :
    (s d : List ℕ)
    → ((ends_with s d ≡ true)
        × (strip_end s d ++ d ≡ s)
        × (length (strip_end s d) ≡ length s - length d))
      ⊎ ((ends_with s d ≡ false) × (strip_end s d ≡ s))
unfolding strip_end
strip_end-cases s d = elim (Bool-cases (ends_with s d)) [
  | inl e ↦
      inl
        (e, rw e (ends_with_sound s d e), rw e (omega (arith, length-take (length s - length d) s)))
  | inr e ↦ inr (e, rw e)
]

starts_with : (a s : List ℕ) → strncmp_eq a s (length a) ≡ true → a ++ drop (length a) s ≡ s
starts_with a s h =
    ap (λ t. t ++ drop (length a) s)
      (sym (take_all (length a) a (omega arith)) ∙ strncmp_eq-take a s (length a) h)
    ∙ take-append-drop (length a) s

rest_of : (b r s : List ℕ) → b ++ r ≡ s → b ++ drop (length b) s ≡ s
rest_of b r s e = rw (← e) (rw (drop-append_self b r (length b) refl))

last_part :
    (s a u : List ℕ) (n : ℕ) → s ≡ a ++ u → n ≡ length u → take n (drop (length s - n) s) ≡ u
last_part s a u n e h = rw e (take-drop_end a u n h)

module _ (prefix full delim : CStr) (upath cap : ℕ) where
  -- The output buffer overlaps none of the arguments, and no text is longer than PATH_MAX.
  pub record IsFair : Type 0 where
    pub apart_prefix : apart prefix upath cap ≡ true
    pub apart_full : apart full upath cap ≡ true
    pub apart_delim : apart delim upath cap ≡ true
    pub short_full : length full.text ≤ path_max
    pub short_delim : length delim.text ≤ path_max
    pub short_prefix : length prefix.text ≤ path_max

  abbrev base : List ℕ
  base = strip_end prefix.text delim.text

  abbrev u_len : ℕ
  u_len = length full.text - length base - length delim.text

  -- The checks that are left once the buffers are apart and the texts are short.
  accepted : Option (List ℕ)
  accepted =
      if not (strncmp_eq prefix.text full.text (length prefix.text))
      then none
      else if leb (length full.text) (length base + length delim.text)
      then none
      else if not (strncmp_eq (drop (length base) full.text) delim.text (length delim.text))
      then none
      else if ltb cap (u_len + 1)
      then none
      else some (take u_len (drop (length full.text - u_len) full.text))

  stripped_length :
      (if ends_with prefix.text delim.text
        then length prefix.text - length delim.text
        else length prefix.text)
      ≡ length base
  stripped_length = elim (strip_end-cases prefix.text delim.text) [
    | inl (e, _, n) ↦ rw e (sym n)
    | inr (e, n) ↦ rw e (ap length (sym n))
  ]

  extract_run : IsFair → extract_user_path prefix full (some delim) (some upath) cap ≡ accepted
  unfolding extract_user_path accepted
  extract_run fair = rw stripped_length (ground arith)

  -- A text with the stripped prefix, a delimiter and something behind it passes every check.
  accepted_of_split :
      (u : List ℕ)
      → full.text ≡ base ++ delim.text ++ u
      → u ≢ []
      → length u < cap
      → accepted ≡ some u
  unfolding accepted
  accepted_of_split u e filled fits = ground (arith, starts, behind, lengths, tail, nonempty)
    where
      d : List ℕ
      d = delim.text

      e' : full.text ≡ base ++ (d ++ u)
      e' = e ∙ append_assoc base d u

      lengths : length full.text ≡ length base + length d + length u
      lengths = ap length e ∙ omega (arith, length-append (base ++ d) u, length-append base d)

      nonempty : 0 < length u
      nonempty =
          elim u as (λ v. v ≢ [] → 0 < length v) [
            | [] ↦ λ ne. absurd (ne refl)
            | x ∷ xs ↦ λ ne. omega arith
          ]
            filled

      starts : strncmp_eq prefix.text full.text (length prefix.text) ≡ true
      starts = elim (strip_end-cases prefix.text d) [
        | inl (_, joined, _) ↦ rw (e, joined) (strncmp_eq-append prefix.text u)
        | inr (_, same) ↦ rw (e', same) (strncmp_eq-append prefix.text (d ++ u))
      ]

      behind : strncmp_eq (drop (length base) full.text) d (length d) ≡ true
      behind = rw (e', drop-append_self base (d ++ u) (length base) refl) (append-strncmp_eq d u)

      tail : take u_len (drop (length full.text - u_len) full.text) ≡ u
      tail = last_part full.text (base ++ d) u u_len e (omega (arith, lengths))

  -- What passes every check is such a text.
  split_of_accepted :
      (u : List ℕ)
      → accepted ≡ some u
      → (full.text ≡ base ++ delim.text ++ u) × (u ≢ []) × (length u < cap)
  unfolding accepted
  split_of_accepted u h = (parts, filled, omega (arith, checks.3, lengths, ap length same))
    where
      d : List ℕ
      d = delim.text

      checks :
          (strncmp_eq prefix.text full.text (length prefix.text) ≡ true)
          × (length base + length d < length full.text)
          × (strncmp_eq (drop (length base) full.text) d (length d) ≡ true)
          × (u_len < cap)
          × (take u_len (drop (length full.text - u_len) full.text) ≡ u)
      checks = ground arith

      from_prefix : prefix.text ++ drop (length prefix.text) full.text ≡ full.text
      from_prefix = starts_with prefix.text full.text checks.0

      from_base : base ++ drop (length base) full.text ≡ full.text
      from_base = elim (strip_end-cases prefix.text d) [
        | inl (_, joined, _) ↦ rest_of base (d ++ drop (length prefix.text) full.text) full.text (
            sym (append_assoc base d _)
            ∙ ap (λ t. t ++ drop (length prefix.text) full.text) joined
            ∙ from_prefix)
        | inr (_, same) ↦ rw same from_prefix
      ]

      rest : List ℕ
      rest = drop (length d) (drop (length base) full.text)

      cut : take (length d) d ≡ take (length d) (drop (length base) full.text)
      cut = sym (strncmp_eq-take (drop (length base) full.text) d (length d) checks.2)

      from_delim : d ++ rest ≡ drop (length base) full.text
      from_delim =
          ap (λ t. t ++ rest) (sym (take_all (length d) d (omega arith)) ∙ cut)
          ∙ take-append-drop (length d) (drop (length base) full.text)

      whole : full.text ≡ base ++ d ++ rest
      whole = sym from_base ∙ ap (◌++◌ base) (sym from_delim) ∙ sym (append_assoc base d rest)

      lengths : length full.text ≡ length base + length d + length rest
      lengths =
          ap length whole ∙ omega (arith, length-append (base ++ d) rest, length-append base d)

      same : u ≡ rest
      same =
          sym checks.4 ∙ last_part full.text (base ++ d) rest u_len whole (omega (arith, lengths))

      parts : full.text ≡ base ++ d ++ u
      parts = whole ∙ ap (λ t. base ++ d ++ t) (sym same)

      filled : u ≢ []
      filled empty = absurd (omega (arith, lengths, ap length same, ap length empty, checks.1))

  -- For buffers that do not overlap and texts of at most PATH_MAX bytes, the call accepts the path
  -- and returns `u` exactly when the path is the prefix (without a delimiter at its end), then a
  -- delimiter, then `u`, where `u` is not empty and fits the buffer with its NUL.
  pub extract_user_path_iff :
      (u : List ℕ)
      → IsFair
      → (extract_user_path prefix full (some delim) (some upath) cap ≡ some u) ↔ (
          (full.text ≡ strip_end prefix.text delim.text ++ delim.text ++ u)
          × (u ≢ [])
          × (length u < cap))
  extract_user_path_iff u fair =
      rw (extract_run fair) (split_of_accepted u, λ h. accepted_of_split u h.0 h.1 h.2)

-- An accepted path starts with all bytes of the prefix.
pub extract_user_path-starts :
    (prefix full : CStr) (delim : Option CStr) (upath : Option ℕ) (cap : ℕ) {u : List ℕ}
    → extract_user_path prefix full delim upath cap ≡ some u
    → strncmp_eq prefix.text full.text (length prefix.text) ≡ true
unfolding extract_user_path
extract_user_path-starts prefix full delim none cap h = cc
extract_user_path-starts prefix full delim (some upath) cap h = ground arith
