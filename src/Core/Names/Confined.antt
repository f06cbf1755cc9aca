-- ===== src/Core/Names/Confined.antt =====
-- What an accepted name can do to a path that it is joined to.
use mathlib.Core.Bool.{false≢true}
use Prim.Native.Char.{code}
use aursmith.Base.{
  len, leb, any_char, is_control, ℕ, zero, suc, ◌≡◌, refl, sym, subst, ◌∙◌, Bool, true, false, not,
  Option, none, some, List, [], ◌∷◌, String, arith, ◌==◌, ==_iff, nat_ord, string_ord, all,
  all_chars, all_chars_mono, first_is, is_one_of, split_lem, ok, Bool-cases, inl, inr,
}
use aursmith.Core.Names.{
  Component, root_dir, cur_dir, parent_dir, normal, components, is_absolute, leaves_root,
  package_char, validate_package_name, validate_relative_path, artifact_char,
  validate_artifact_file_name,
}

-- The depth below the starting directory at which a walk along the components ends; none if the walk
-- steps out of that directory on its way.
abbrev pub descend : ℕ → List Component → Option ℕ
descend depth [] = some depth
descend depth (root_dir ∷ cs) = none
descend depth (cur_dir ∷ cs) = descend depth cs
descend zero (parent_dir ∷ cs) = none
descend (suc depth) (parent_dir ∷ cs) = descend depth cs
descend depth (normal part ∷ cs) = descend (suc depth) cs

no_slash :
    (p : ℕ → Bool) (s : String)
    → p b'/' ≡ false
    → all_chars p s ≡ true
    → all_chars (λ c. not (c == b'/')) s ≡ true
no_slash p s no_p h =
    all_chars_mono p (λ c. not (c == b'/')) s
      (λ c q. elim (Bool-cases (c == b'/')) [
        | inl e ↦ absurd (false≢true (sym no_p ∙ (subst (λ d. p d ≡ true) ((==_iff c b'/').0 e) q)))
        | inr n ↦ rw n refl
      ])
      h

ne_of_first :
    (p : ℕ → Bool) (s t : String) → first_is p t ≡ true → first_is p s ≡ false → (s == t) ≡ false
ne_of_first p s t h k = elim (Bool-cases (s == t)) [
  | inl e ↦ absurd (false≢true (sym k ∙ (rw ((==_iff s t).0 e) h)))
  | inr n ↦ n
]

-- A text with no slash that begins with neither a dash nor a dot is one plain component.
components_plain :
    (s : String)
    → (s == "") ≡ false
    → first_is (is_one_of "-.") s ≡ false
    → all_chars (λ c. not (c == b'/')) s ≡ true
    → components s ≡ normal s ∷ []
unfolding components
components_plain s nonempty first h =
    let dot = ne_of_first (is_one_of "-.") s "." refl first in
    let dots = ne_of_first (is_one_of "-.") s ".." refl first in
    let relative : is_absolute s ≡ false = relative_lem s h in
    simp (split_lem b'/' s h, relative, nonempty, dot, dots)
  where
    relative_lem : (t : String) → all_chars (λ c. not (c == b'/')) t ≡ true → is_absolute t ≡ false
    relative_lem String.[] k = refl
    relative_lem (String.◌∷◌ c t) k = ground arith

artifact_facts :
    (v w : String)
    → validate_artifact_file_name v ≡ ok w
    → (w ≡ v)
      × ((v == "") ≡ false)
      × (first_is (is_one_of "-.") v ≡ false)
      × (all_chars artifact_char v ≡ true)
unfolding validate_artifact_file_name
artifact_facts v w h = ground arith

package_facts :
    (v w : String)
    → validate_package_name v ≡ ok w
    → (w ≡ v)
      × ((v == "") ≡ false)
      × (first_is (is_one_of "-.") v ≡ false)
      × (all_chars package_char v ≡ true)
unfolding validate_package_name
package_facts v w h = ground arith

artifact_char-slash : artifact_char b'/' ≡ false
unfolding artifact_char
artifact_char-slash = refl

package_char-slash : package_char b'/' ≡ false
unfolding package_char
package_char-slash = refl

-- An artifact file name that is accepted is accepted unchanged, and it is one plain path component:
-- joined to a directory it names an entry of that directory.
pub validate_artifact_file_name-components :
    (v w : String) → validate_artifact_file_name v ≡ ok w → (w ≡ v) × (components v ≡ normal v ∷ [])
validate_artifact_file_name-components v w h =
    let (same, nonempty, first, chars) = artifact_facts v w h in
    (same, components_plain v nonempty first (no_slash artifact_char v artifact_char-slash chars))

pub validate_package_name-components :
    (v w : String) → validate_package_name v ≡ ok w → (w ≡ v) × (components v ≡ normal v ∷ [])
validate_package_name-components v w h =
    let (same, nonempty, first, chars) = package_facts v w h in
    (same, components_plain v nonempty first (no_slash package_char v package_char-slash chars))

descend-all :
    (depth : ℕ) (cs : List Component)
    → all (λ c. not (leaves_root c)) cs ≡ true
    → (end : ℕ) × (descend depth cs ≡ some end)
descend-all depth [] h = (depth, refl)
descend-all depth (root_dir ∷ cs) h = absurd (false≢true h)
descend-all depth (cur_dir ∷ cs) h = descend-all depth cs h
descend-all depth (parent_dir ∷ cs) h = absurd (false≢true h)
descend-all depth (normal part ∷ cs) h = descend-all (suc depth) cs h

relative_facts :
    (v w : String)
    → validate_relative_path v ≡ ok w
    → (w ≡ v) × (all (λ c. not (leaves_root c)) (components v) ≡ true)
unfolding validate_relative_path
relative_facts v w h = ground arith

-- A relative path that is accepted is accepted unchanged, and a walk along its components from a
-- directory never steps out of that directory.
pub validate_relative_path-descend :
    (v w : String)
    → validate_relative_path v ≡ ok w
    → (w ≡ v) × ((end : ℕ) × (descend 0 (components v) ≡ some end))
validate_relative_path-descend v w h =
    let (same, inside) = relative_facts v w h in (same, descend-all 0 (components v) inside)

package_char-not_control : (c : ℕ) → package_char c ≡ true → is_control c ≡ false
unfolding package_char
package_char-not_control c h = ground arith

no_control : (s : String) → all_chars package_char s ≡ true → any_char is_control s ≡ false
no_control String.[] h = refl
no_control (String.◌∷◌ c s) h = ground (arith, package_char-not_control (code c), no_control s)

first_is-or :
    (s : String) → first_is (is_one_of "-.") s ≡ false → first_is (λ c. c == b'-') s ≡ false
first_is-or String.[] h = refl
first_is-or (String.◌∷◌ c s) h = ground arith

first_is-all : (s : String) → all_chars package_char s ≡ true → is_absolute s ≡ false
unfolding package_char
first_is-all String.[] h = refl
first_is-all (String.◌∷◌ c s) h = ground arith

package_length : (v w : String) → validate_package_name v ≡ ok w → leb (len v) 512 ≡ true
unfolding validate_package_name
package_length v w h = ground arith

-- Every accepted package name is one plain path component, and is accepted as a relative path too.
pub validate_package_name-relative :
    (v w : String)
    → validate_package_name v ≡ ok w
    → (components v ≡ normal v ∷ []) × (validate_relative_path v ≡ ok v)
unfolding validate_relative_path
validate_package_name-relative v w h =
    let (same, nonempty, first, chars) = package_facts v w h in
    let plain = (validate_package_name-components v w h).1 in
    let dash = first_is-or v first in
    let relative = first_is-all v chars in
    let printed = no_control v chars in
    let short = package_length v w h in
    (plain, rw (nonempty, short, dash, relative, printed, plain) refl)
