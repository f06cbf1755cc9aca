-- ===== src/Daemon/Auth.antt =====
-- crates/aursmithd/src/auth.rs: the bearer test of the builder's requests. The SHA-256 of a text is a
-- parameter; a header that is no text counts as absent.
use Prim.Native.Nat.{bit_or, bit_xor}
use Prim.Native.Char.{code}
use aursmith.Base.{
  ℕ, String, List, [], ◌∷◌, Bool, ◌&&◌, Option, none, some, ok, err, ◌==◌, nat_ord, string_ord, len,
  starts_with, drop_chars, if◌then◌else◌,
}
use aursmith.Daemon.Handler.{ApiResult, unauthorized_error, Handler}

abbrev pub codes : String → List ℕ
codes String.[] = []
codes (String.◌∷◌ c s) = code c ∷ codes s

-- `zip` and the fold over `difference | (left ^ right)`; both texts are hexadecimal digits, whose
-- bytes are their code points
abbrev pub difference : ℕ → List ℕ → List ℕ → ℕ
difference acc [] right = acc
difference acc (l ∷ left) [] = acc
difference acc (l ∷ left) (r ∷ right) = difference (bit_or acc (bit_xor l r)) left right

unfoldable pub same_digest : String → String → Bool
same_digest actual expected =
    len actual == len expected && difference 0 (codes actual) (codes expected) == 0

abbrev bearer_token : Option String → Option String
bearer_token none = none
bearer_token (some value) =
    if starts_with value "Bearer "
    then (if drop_chars 7 value == "" then none else some (drop_chars 7 value))
    else none

abbrev check_token : (String → String) → String → Option String → ApiResult (Unit {0})
check_token sha256 expected none = err unauthorized_error
check_token sha256 expected (some token) =
    if same_digest (sha256 token) expected then ok tt else err unauthorized_error

unfoldable pub require_builder : (String → String) → Option String → Handler (Unit {0})
unfolding same_digest
require_builder sha256 authorization s =
    (check_token sha256 s.config.builder_token_sha256 (bearer_token authorization), s)
