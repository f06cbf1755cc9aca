-- ===== src/Core/Names.antt =====
-- crates/aursmith-core/src/names.rs and the digest test of lib.rs: every name from the AUR, the
-- builder or the browser goes through these tests. A character is its code point.
pub mod Confined
mod Examples
use aursmith.Base.{
  ℕ, String, len, List, [], ◌∷◌, map, Bool, true, false, not, ◌&&◌, ◌||◌, Result, ok, err, leb,
  ◌==◌, nat_ord, string_ord, all, all_chars, any_char, is_one_of, first_is, is_ascii_digit,
  is_ascii_alphanumeric, is_control, has_text, ends_with, take_chars, split, keep, if◌then◌else◌,
}

pub data NameError : Type 0 where
  package_name path_name artifact_name repository_name : String → NameError

pub package_char : ℕ → Bool
package_char c = is_ascii_alphanumeric c || is_one_of "@._+-" c

unfoldable pub validate_package_name : String → Result String NameError
unfolding package_char
validate_package_name value =
    let valid =
      not (value == "")
      && leb (len value) 128
      && not (first_is (is_one_of "-.") value)
      && all_chars package_char value in
    if valid then ok value else err (package_name (take_chars 64 value))

-- `std::path::Component` on Unix, where there is no prefix
pub data Component : Type 0 where
  root_dir cur_dir parent_dir : Component
  normal : String → Component

abbrev pub component : String → Component
component part = if part == ".." then parent_dir else normal part

-- Empty pieces and `.` are dropped, but for a `.` at the front.
abbrev pub tail_components : List String → List Component
tail_components parts = map component (keep (λ part. not (part == "" || part == ".")) parts)

abbrev pub is_absolute : String → Bool
is_absolute value = first_is (λ c. c == b'/') value

abbrev pub path_components : Bool → List String → List Component
path_components absolute [] = []
path_components true (first ∷ parts) = root_dir ∷ tail_components parts
path_components false (first ∷ parts) =
    if first == "." then cur_dir ∷ tail_components parts else tail_components (first ∷ parts)

-- `Path::new(value).components()`
unfoldable pub components : String → List Component
components value = path_components (is_absolute value) (split b'/' value)

-- `matches!(component, ParentDir | RootDir | Prefix(_))`
abbrev pub leaves_root : Component → Bool
leaves_root root_dir = true
leaves_root cur_dir = false
leaves_root parent_dir = true
leaves_root (normal part) = false

unfoldable pub validate_relative_path : String → Result String NameError
validate_relative_path value =
    let valid =
      not (value == "")
      && leb (len value) 512
      && not (first_is (λ c. c == b'-') value)
      && not (is_absolute value)
      && not (any_char is_control value)
      && all (λ component. not (leaves_root component)) (components value) in
    if valid then ok value else err (path_name (take_chars 64 value))

pub artifact_char : ℕ → Bool
artifact_char c = is_ascii_alphanumeric c || is_one_of "@._+-:" c

unfoldable pub validate_artifact_file_name : String → Result String NameError
unfolding artifact_char
validate_artifact_file_name value =
    let valid =
      not (value == "")
      && leb (len value) 255
      && not (first_is (is_one_of "-.") value)
      && has_text ".pkg.tar." value
      && not (ends_with value ".sig")
      && all_chars artifact_char value in
    if valid then ok value else err (artifact_name (take_chars 64 value))

pub repository_char : ℕ → Bool
repository_char c = is_ascii_alphanumeric c || is_one_of "-_" c

unfoldable pub validate_repository_name : String → Result String NameError
unfolding repository_char
validate_repository_name value =
    let valid = not (value == "") && leb (len value) 64 && all_chars repository_char value in
    if valid then ok value else err (repository_name (take_chars 64 value))

-- `is_sha256_hex` of lib.rs
unfoldable pub is_sha256_hex : String → Bool
is_sha256_hex value =
    len value == 64 && all_chars (λ c. is_ascii_digit c || (leb b'a' c && leb c b'f')) value
