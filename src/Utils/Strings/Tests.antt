-- ===== src/Utils/Strings/Tests.antt =====
-- Runs of the string helpers, and their theorems at concrete paths.
use dyad.Prelude.{ℕ, ◌≡◌, ◌≢◌, refl, List, [], ◌∷◌, some, none, arith}
use dyad.Utils.Strings.{CStr, concat_str, extract_user_path, strncmp_eq, c_text, ends_with, apart}
use dyad.Utils.Strings.Compare.{NoNul}
use dyad.Utils.Strings.Concat.{strip_end}
use dyad.Utils.Strings.Extract.{IsFair}
use dyad.Utils.Strings.RoundTrip.{extract_user_path-concat_str}

program : Unit {0}
unfolding concat_str extract_user_path strncmp_eq c_text ends_with apart strip_end
program = tt

abbrev at : ℕ → List ℕ → CStr
at a s = record { addr = a; text = s }

-- "/p/"
abbrev managed : CStr
managed = at 100 (b'/' ∷ b'p' ∷ b'/' ∷ [])

-- "a"
abbrev user : CStr
user = at 10000 (b'a' ∷ [])

abbrev slash : CStr
slash = at 20000 (b'/' ∷ [])

abbrev full_text : List ℕ
full_text = b'/' ∷ b'p' ∷ b'/' ∷ b'a' ∷ []

abbrev full : CStr
full = at 30000 full_text

joins : concat_str managed user slash 4096 ≡ some full_text
unfolding program
joins = refl

too_small : concat_str managed user slash 5 ≡ none
unfolding program
too_small = refl

overlaps : concat_str managed (at 101 (b'a' ∷ [])) slash 4096 ≡ none
unfolding program
overlaps = refl

-- "/p2/a" is not under "/p".
sibling :
    extract_user_path
      (at 100 (b'/' ∷ b'p' ∷ []))
      (at 30000 (b'/' ∷ b'p' ∷ b'2' ∷ b'/' ∷ b'a' ∷ []))
      (some slash)
      (some 40000)
      4096
    ≡ none
unfolding program
sibling = refl

full-IsFair : IsFair managed full slash 40000 4096
unfolding program
full-IsFair = record {
  apart_prefix = refl;
  apart_full = refl;
  apart_delim = refl;
  short_full = omega arith;
  short_delim = omega arith;
  short_prefix = omega arith;
}

managed-NoNul : NoNul managed.text
managed-NoNul = omega arith

filled : user.text ≢ []
filled e = cc

extract_user_path-concat_str_example :
    extract_user_path managed full (some slash) (some 40000) 4096 ≡ some user.text
extract_user_path-concat_str_example =
    extract_user_path-concat_str managed user slash 4096 30000 40000 4096 joins managed-NoNul
      (omega arith) (omega arith) filled (omega arith) full-IsFair
