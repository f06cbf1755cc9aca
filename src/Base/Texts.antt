-- ===== src/Base/Texts.antt =====
-- Texts: what the code uses of `str`. A `String` holds characters, and `len` counts the bytes.
use Prim.Native.Nat.{ℕ, zero, suc, ◌-◌}
use Prim.Native.Char.{Char, code, len_utf8}
use Prim.Native.String.{String, [], ◌∷◌}
use mathlib.Core.Path.{◌≡◌, refl}
use mathlib.Core.Bool.{Bool, true, false, ◌&&◌, ◌||◌, not}
use mathlib.Core.List.{List}
use mathlib.Core.List
use mathlib.Core.Option.{Option, none, some}
use native.Mathlib.Omega.{arith}
use text.Mathlib.Text.{starts_with}
use aursmith.Base.Tests.{leb, if◌then◌else◌}
use aursmith.Base.Order.{◌==◌, nat_ord, string_ord}

-- `chars().all(p)`
abbrev pub all_chars : (ℕ → Bool) → String → Bool
all_chars p [] = true
all_chars p (c ∷ s) = p (code c) && all_chars p s

-- `chars().any(p)`
abbrev pub any_char : (ℕ → Bool) → String → Bool
any_char p [] = false
any_char p (c ∷ s) = p (code c) || any_char p s

-- `"…".contains(character)`
abbrev pub is_one_of : String → ℕ → Bool
is_one_of s c = any_char (λ d. d == c) s

-- `starts_with([…])`
abbrev pub first_is : (ℕ → Bool) → String → Bool
first_is p [] = false
first_is p (c ∷ s) = p (code c)

abbrev pub is_ascii_digit : ℕ → Bool
is_ascii_digit c = leb b'0' c && leb c b'9'

abbrev pub is_ascii_alphanumeric : ℕ → Bool
is_ascii_alphanumeric c =
    is_ascii_digit c || (leb b'a' c && leb c b'z') || (leb b'A' c && leb c b'Z')

-- `char::is_control`: the general category Cc
abbrev pub is_control : ℕ → Bool
is_control c = leb c 0x1f || (leb 0x7f c && leb c 0x9f)

-- `contains(pattern)`
abbrev pub has_text : String → String → Bool
has_text t [] = t == []
has_text t (c ∷ s) = starts_with (c ∷ s) t || has_text t s

-- `ends_with(pattern)`
abbrev pub ends_with : String → String → Bool
ends_with [] t = t == []
ends_with (c ∷ s) t = (c ∷ s) == t || ends_with s t

-- `chars().take(n).collect()`
abbrev pub take_chars : ℕ → String → String
take_chars n [] = []
take_chars zero (c ∷ s) = []
take_chars (suc n) (c ∷ s) = c ∷ take_chars n s

-- `chars().count()`
abbrev pub count_chars : String → ℕ
count_chars [] = 0
count_chars (c ∷ s) = suc (count_chars s)

abbrev pub push_first : Char → List String → List String
push_first c List.[] = List.◌∷◌ (c ∷ []) List.[]
push_first c (List.◌∷◌ part parts) = List.◌∷◌ (c ∷ part) parts

-- `split(separator)`
abbrev pub split : ℕ → String → List String
split sep [] = List.◌∷◌ [] List.[]
split sep (c ∷ s) =
    let rest = split sep s in if code c == sep then List.◌∷◌ [] rest else push_first c rest

-- A text with no separator is one piece.
pub split_lem :
    (sep : ℕ) (s : String)
    → all_chars (λ c. not (c == sep)) s ≡ true
    → split sep s ≡ List.◌∷◌ s List.[]
split_lem sep [] h = refl
split_lem sep (c ∷ s) h = ground (arith, split_lem sep s)

-- A test that holds of fewer characters is passed by fewer texts.
pub all_chars_mono :
    (p q : ℕ → Bool) (s : String)
    → ((c : ℕ) → p c ≡ true → q c ≡ true)
    → all_chars p s ≡ true
    → all_chars q s ≡ true
all_chars_mono p q [] i h = refl
all_chars_mono p q (c ∷ s) i h = ground (arith, i (code c), all_chars_mono p q s i)

-- `char::is_whitespace`: the property White_Space
abbrev pub is_whitespace : ℕ → Bool
is_whitespace c =
    (leb 0x9 c && leb c 0xd)
    || (c == 0x20 || c == 0x85 || c == 0xa0 || c == 0x1680)
    || (leb 0x2000 c && leb c 0x200a)
    || (c == 0x2028 || c == 0x2029 || c == 0x202f || c == 0x205f || c == 0x3000)

abbrev pub trim_start : String → String
trim_start [] = []
trim_start (c ∷ s) = let rest = trim_start s in if is_whitespace (code c) then rest else c ∷ s

abbrev pub trim_end : String → String
trim_end [] = []
trim_end (c ∷ s) =
    let rest = trim_end s in if is_whitespace (code c) && rest == [] then [] else c ∷ rest

-- `trim()`
abbrev pub trim : String → String
trim s = trim_start (trim_end s)

abbrev prepend : Char → Option (String × String) → Option (String × String)
prepend c none = none
prepend c (some (before, after)) = some (c ∷ before, after)

-- `split_once(separator)`
abbrev pub split_once : ℕ → String → Option (String × String)
split_once sep [] = none
split_once sep (c ∷ s) =
    let rest = split_once sep s in if code c == sep then some ([], s) else prepend c rest

-- `&s[n..]`, counted in characters
abbrev pub drop_chars : ℕ → String → String
drop_chars n [] = []
drop_chars zero (c ∷ s) = c ∷ s
drop_chars (suc n) (c ∷ s) = drop_chars n s

-- `split_once("…")` at a separator that is not empty
abbrev pub split_once_text : String → String → Option (String × String)
split_once_text sep [] = none
split_once_text sep (c ∷ s) =
    let rest = split_once_text sep s in
    if starts_with (c ∷ s) sep
    then some ([], drop_chars (count_chars sep) (c ∷ s))
    else prepend c rest

-- `split([…]).next()`: the text up to the first separator
abbrev pub first_piece : (ℕ → Bool) → String → String
first_piece p [] = []
first_piece p (c ∷ s) = let rest = first_piece p s in if p (code c) then [] else c ∷ rest

abbrev strip_return : String → String
strip_return [] = []
strip_return (c ∷ s) =
    let rest = strip_return s in if code c == 0xd && s == [] then [] else c ∷ rest

abbrev drop_last_empty : List String → List String
drop_last_empty List.[] = List.[]
drop_last_empty (List.◌∷◌ part parts) =
    let rest = drop_last_empty parts in
    elim parts [
      | List.[] ↦ if part == [] then List.[] else List.◌∷◌ part List.[]
      | List.◌∷◌ _ _ ↦ List.◌∷◌ part rest
    ]

-- `lines()`
abbrev pub lines : String → List String
lines s = List.map strip_return (drop_last_empty (split 0xa s))

abbrev first_or : Char → String → Char
first_or d [] = d
first_or d (c ∷ s) = c

abbrev upper_char : Char → Char
upper_char c =
    if leb b'a' (code c) && leb (code c) b'z'
    then first_or c (drop_chars (code c - b'a') "ABCDEFGHIJKLMNOPQRSTUVWXYZ")
    else c

abbrev lower_char : Char → Char
lower_char c =
    if leb b'A' (code c) && leb (code c) b'Z'
    then first_or c (drop_chars (code c - b'A') "abcdefghijklmnopqrstuvwxyz")
    else c

-- `to_ascii_uppercase()`
unfoldable pub to_ascii_uppercase : String → String
to_ascii_uppercase [] = []
to_ascii_uppercase (c ∷ s) = upper_char c ∷ to_ascii_uppercase s

-- `to_ascii_lowercase()`
unfoldable pub to_ascii_lowercase : String → String
to_ascii_lowercase [] = []
to_ascii_lowercase (c ∷ s) = lower_char c ∷ to_ascii_lowercase s

-- `&s[cut..]`, from the first character boundary at or behind the byte `cut`
abbrev pub from_byte : ℕ → String → String
from_byte cut [] = []
from_byte cut (c ∷ s) =
    let rest = from_byte (cut - len_utf8 c) s in if cut == 0 then c ∷ s else rest
