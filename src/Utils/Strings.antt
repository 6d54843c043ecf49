-- ===== src/Utils/Strings.antt =====
-- The string helpers of dyad/utils/utils.c: `concat_str` and `extract_user_path`.
-- A C string is the list of its bytes before the terminating NUL, so a text holds no 0. Where
-- the code compares pointers, the string comes with its address.
pub mod Compare
pub mod Concat
pub mod Extract
pub mod RoundTrip
mod Tests
use dyad.Prelude.{
  ℕ, zero, suc, ◌+◌, ◌-◌, Bool, true, false, ◌&&◌, ◌||◌, not, List, [], ◌∷◌, ◌++◌, Option, none,
  some, ltb, leb, ◌==◌, if◌then◌else◌, length, take, drop, replicate,
}

pub record CStr : Type 0 where
  pub addr : ℕ
  pub text : List ℕ

-- PATH_MAX of linux/limits.h
abbrev pub path_max : ℕ
path_max = 4096

-- `strncmp (a, b, n) == 0`
unfoldable pub strncmp_eq : List ℕ → List ℕ → ℕ → Bool
strncmp_eq a b zero = true
strncmp_eq [] [] (suc n) = true
strncmp_eq [] (y ∷ b) (suc n) = false
strncmp_eq (x ∷ a) [] (suc n) = false
strncmp_eq (x ∷ a) (y ∷ b) (suc n) = x == y && strncmp_eq a b n

-- The string that a zero-terminated buffer holds.
unfoldable pub c_text : List ℕ → List ℕ
c_text [] = []
c_text (x ∷ xs) = if x == 0 then [] else x ∷ c_text xs

-- `strncmp (s + strlen (s) - strlen (d), d, strlen (d)) == 0`, guarded by the lengths
unfoldable pub ends_with : List ℕ → List ℕ → Bool
ends_with s d = leb (length d) (length s) && strncmp_eq (drop (length s - length d) s) d (length d)

-- `s` lies before the buffer of `capacity` bytes at `addr`, or behind it.
unfoldable pub apart : CStr → ℕ → ℕ → Bool
apart s addr capacity = leb (s.addr + length s.text) addr || leb (addr + capacity) s.addr

-- `none` is the NULL of a refusal, which leaves the buffer as it was. The new contents are the
-- bytes that are copied back from the zeroed scratch buffer: where the connector was stripped,
-- as many zeros stand at the end.
unfoldable pub concat_str : CStr → CStr → CStr → ℕ → Option (List ℕ)
concat_str str to_append connector str_capacity =
    let str_len_org = length str.text in
    let con_len = length connector.text in
    let app_len = length to_append.text in
    let all_len = str_len_org + con_len + app_len in
    let con_end = ends_with str.text connector.text in
    let str_len = if con_end then str_len_org - con_len else str_len_org in
    let no_overlap =
      apart to_append str.addr str_capacity && apart connector str.addr str_capacity in
    if ltb str_capacity (all_len + 1)
    then none
    else if not no_overlap
    then none
    else some (
        c_text (
          take str_len str.text
          ++ connector.text
          ++ to_append.text
          ++ replicate (str_len_org - str_len) 0))

-- A string argument that may be NULL.
abbrev pub text_of : Option CStr → List ℕ
text_of none = []
text_of (some s) = s.text

abbrev pub nullable : Option CStr → CStr
nullable none = record { addr = 0; text = [] }
nullable (some s) = s

-- The bytes that are stored at `upath`, whose address is `none` for NULL; `none` is `false`.
unfoldable pub extract_user_path : CStr → CStr → Option CStr → Option ℕ → ℕ → Option (List ℕ)
extract_user_path prefix full delim none upath_capacity = none
extract_user_path prefix full delim (some upath) upath_capacity =
    let full_len = length full.text in
    let delim_len = length (text_of delim) in
    let no_overlap =
      apart prefix upath upath_capacity
      && apart full upath upath_capacity
      && apart (nullable delim) upath upath_capacity in
    let strips = ends_with prefix.text (text_of delim) in
    let prefix_len = if strips then length prefix.text - delim_len else length prefix.text in
    let u_len = full_len - prefix_len - delim_len in
    if not no_overlap
    then none
    else if not (strncmp_eq prefix.text full.text (length prefix.text))
    then none
    else if ltb path_max full_len || ltb path_max delim_len || ltb path_max (length prefix.text)
    then none
    else if leb full_len (prefix_len + delim_len)
    then none
    else if not (strncmp_eq (drop prefix_len full.text) (text_of delim) delim_len)
    then none
    else if ltb upath_capacity (u_len + 1)
    then none
    else some (take u_len (drop (full_len - u_len) full.text))
