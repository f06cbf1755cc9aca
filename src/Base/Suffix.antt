-- ===== src/Base/Suffix.antt =====
-- `strip_suffix` of `str`, and texts that differ in their ends.
use Prim.Native.Nat.{ℕ, suc, ◌+◌}
use Prim.Native.Char.{Char}
use Prim.Native.String.{String, [], ◌∷◌, ◌++◌}
use Prim.Native.String.append
use mathlib.Core.Path.{◌≡◌, refl, sym, ap, ◌∙◌}
use mathlib.Core.Bool.{false}
use mathlib.Core.Logic.{inl, inr}
use native.Mathlib.Omega.{arith}
use aursmith.Base.Tests.{if◌then◌else◌, Bool-cases}
use aursmith.Base.Order.{◌==◌, string_ord, ==_iff, ==_refl}

-- `text.strip_suffix(suffix).unwrap_or(text)`
unfoldable pub without_suffix : String → String → String
without_suffix suffix [] = []
without_suffix suffix (c ∷ s) =
    let rest = without_suffix suffix s in if (c ∷ s) == suffix then [] else c ∷ rest

abbrev count : String → ℕ
count [] = 0
count (c ∷ s) = suc (count s)

count-append : (s t : String) → count (s ++ t) ≡ count s + count t
count-append [] t = rw append.nil (omega arith)
count-append (c ∷ s) t = rw append.cons (ground (arith, count-append s t))

without_suffix_itself : (c : Char) (t : String) → without_suffix (c ∷ t) (c ∷ t) ≡ []
unfolding without_suffix
without_suffix_itself c t = rw (==_refl (c ∷ t)) refl

-- A suffix that was appended is stripped.
pub without_suffix-append :
    (s : String) (d : Char) (t : String) → without_suffix (d ∷ t) (s ++ (d ∷ t)) ≡ s
unfolding without_suffix
without_suffix-append [] d t = rw append.nil (without_suffix_itself d t)
without_suffix-append (c ∷ s) d t =
    rw append.cons (elim (Bool-cases ((c ∷ (s ++ (d ∷ t))) == (d ∷ t))) [
      | inl e ↦
          let same : count (c ∷ (s ++ (d ∷ t))) ≡ count (d ∷ t) =
            ap count ((==_iff (c ∷ (s ++ (d ∷ t))) (d ∷ t)).0 e) in
          absurd (ground (arith, count-append s (d ∷ t)))
      | inr n ↦ rw n (ap (λ rest. c ∷ rest) (without_suffix-append s d t))
    ])

abbrev drop_first : String → String
drop_first [] = []
drop_first (c ∷ s) = s

-- Texts with one beginning differ where their ends do.
pub append_differ : (s t u : String) → (t == u) ≡ false → ((s ++ t) == (s ++ u)) ≡ false
append_differ [] t u h = rw (append.nil t, append.nil u) h
append_differ (c ∷ s) t u h = elim (Bool-cases (((c ∷ s) ++ t) == ((c ∷ s) ++ u))) [
  | inr n ↦ n
  | inl e ↦
      let same = (==_iff ((c ∷ s) ++ t) ((c ∷ s) ++ u)).0 e in
      let tails : s ++ t ≡ s ++ u =
        sym (ap (drop_first) (append.cons c s t))
        ∙ ap drop_first same
        ∙ ap drop_first (append.cons c s u) in
      absurd (ground (arith, append_differ s t u h, (==_iff (s ++ t) (s ++ u)).1 tails))
]
