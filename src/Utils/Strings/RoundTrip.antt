-- ===== src/Utils/Strings/RoundTrip.antt =====
-- The path that the service builds from a user path leads back to the user path.
use dyad.Prelude.{ℕ, ◌<◌, ◌≡◌, ◌≢◌, sym, List, [], some, length}
use dyad.Utils.Strings.{CStr, concat_str, extract_user_path}
use dyad.Utils.Strings.Compare.{NoNul}
use dyad.Utils.Strings.Concat.{concat_str_result}
use dyad.Utils.Strings.Extract.{IsFair, extract_user_path_iff}

-- If `concat_str` appends a user path that is not empty to a managed path (texts without a NUL),
-- then `extract_user_path`, given buffers that do not overlap, texts of at most PATH_MAX bytes and
-- room for the user path, takes exactly that user path out of the result. It does not matter
-- whether the managed path ends with the delimiter.
pub extract_user_path-concat_str :
    (managed app delim : CStr) (cap : ℕ) {f : List ℕ} (full_addr upath upath_cap : ℕ)
    → concat_str managed app delim cap ≡ some f
    → NoNul managed.text
    → NoNul delim.text
    → NoNul app.text
    → app.text ≢ []
    → length app.text < upath_cap
    → IsFair managed (record { addr = full_addr; text = f }) delim upath upath_cap
    → extract_user_path managed
        (record { addr = full_addr; text = f })
        (some delim)
        (some upath)
        upath_cap
      ≡ some app.text
extract_user_path-concat_str managed app delim cap {f} full_addr upath upath_cap built nm nd na
      filled fits fair =
    (extract_user_path_iff managed (record { addr = full_addr; text = f }) delim upath upath_cap
        app.text fair).1
      (sym (concat_str_result managed app delim cap built nm nd na), filled, fits)
