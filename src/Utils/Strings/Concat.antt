-- ===== src/Utils/Strings/Concat.antt =====
-- What `concat_str` leaves in its buffer.
use dyad.Prelude.{
  ℕ, ◌+◌, ◌-◌, ◌≤◌, ◌≡◌, ◌⊎◌, inl, inr, true, false, List, ◌++◌, some, none, arith, length, take,
  replicate, if◌then◌else◌, length-append, take-append_self, take_all, Bool-cases,
}
use dyad.Utils.Strings.{CStr, concat_str, apart, ends_with, c_text}
use dyad.Utils.Strings.Compare.{NoNul, NoNul-append, NoNul-take, c_text-append, ends_with-append}

-- A text without one delimiter at its end.
unfoldable pub strip_end : List ℕ → List ℕ → List ℕ
strip_end s d = if ends_with s d then take (length s - length d) s else s

pub strip_end-append : (b d : List ℕ) → strip_end (b ++ d) d ≡ b
unfolding strip_end
strip_end-append b d =
    rw (ends_with-append b d)
      (take-append_self b d (length (b ++ d) - length d) (omega (arith, length-append b d)))

pub strip_end_plain : (b d : List ℕ) → ends_with b d ≡ false → strip_end b d ≡ b
unfolding strip_end
strip_end_plain b d h = rw h

NoNul-strip_end : (s d : List ℕ) → NoNul s → NoNul (strip_end s d)
unfolding strip_end
NoNul-strip_end s d h = elim (Bool-cases (ends_with s d)) [
  | inl e ↦ rw e (NoNul-take (length s - length d) s h)
  | inr e ↦ rw e h
]

module _ (str app con : CStr) (cap : ℕ) where
  abbrev Apart : Type 0
  Apart = (apart app str.addr cap ≡ true) × (apart con str.addr cap ≡ true)

  -- The call as one expression over the stripped text.
  concat_str_run :
      length str.text + length con.text + length app.text + 1 ≤ cap
      → Apart
      → NoNul str.text
      → NoNul con.text
      → NoNul app.text
      → concat_str str app con cap ≡ some (strip_end str.text con.text ++ con.text ++ app.text)
  concat_str_run fits away ns nc na = elim (Bool-cases (ends_with str.text con.text)) [
    | inl e ↦
        unfold concat_str strip_end in
        rw e (
          ground
            (arith, joined bare (length str.text - (length str.text - length con.text)) bare-NoNul))
    | inr e ↦
        unfold concat_str strip_end in
        rw e (
          ground (
            arith,
            take_all (length str.text) str.text,
            joined str.text (length str.text - length str.text) ns,
          ))
  ]
    where
      bare : List ℕ
      bare = take (length str.text - length con.text) str.text

      bare-NoNul : NoNul bare
      bare-NoNul = NoNul-take (length str.text - length con.text) str.text ns

      joined :
          (s : List ℕ) (k : ℕ)
          → NoNul s
          → c_text (s ++ con.text ++ app.text ++ replicate k 0) ≡ s ++ con.text ++ app.text
      joined s k h =
          c_text-append (s ++ con.text ++ app.text) k
            (NoNul-append (s ++ con.text) app.text (NoNul-append s con.text h nc) na)

  -- A refusal is one of two: the result and its NUL do not fit, or a string overlaps the buffer.
  concat_str_refusal :
      concat_str str app con cap ≡ none
      → (cap ≤ length str.text + length con.text + length app.text)
        ⊎ ((apart app str.addr cap ≡ false) ⊎ (apart con str.addr cap ≡ false))
  unfolding concat_str
  concat_str_refusal h = ground arith

  -- For texts without a NUL in disjoint buffers, with room for both texts, the connector and the
  -- NUL: whether or not the buffer's text `base` already ends with the connector, the result is
  -- `base`, exactly one connector, and the appended text.
  concat_str_lem :
      (base : List ℕ)
      → length str.text + length con.text + length app.text + 1 ≤ cap
      → Apart
      → NoNul str.text
      → NoNul con.text
      → NoNul app.text
      → ((str.text ≡ base) × (ends_with base con.text ≡ false)) ⊎ (str.text ≡ base ++ con.text)
      → concat_str str app con cap ≡ some (base ++ con.text ++ app.text)
  concat_str_lem base fits away ns nc na shape =
      rw (concat_str_run fits away ns nc na) (ground (arith, bare shape))
    where
      bare :
          ((str.text ≡ base) × (ends_with base con.text ≡ false)) ⊎ (str.text ≡ base ++ con.text)
          → strip_end str.text con.text ≡ base
      bare (inl (e, plain)) = rw e (strip_end_plain base con.text plain)
      bare (inr e) = rw e (strip_end-append base con.text)

  -- A success has the room and the disjoint buffers, and so that result.
  pub concat_str_result :
      {f : List ℕ}
      → concat_str str app con cap ≡ some f
      → NoNul str.text
      → NoNul con.text
      → NoNul app.text
      → strip_end str.text con.text ++ con.text ++ app.text ≡ f
  concat_str_result h ns nc na = ground (arith, concat_str_run room.0 room.1 ns nc na)
    where
      room : (length str.text + length con.text + length app.text + 1 ≤ cap) × Apart
      room = unfold concat_str in ground arith
