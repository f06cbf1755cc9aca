-- ===== src/Daemon/Packages/Resolve/Asked.antt =====
-- crates/aursmithd/src/packages.rs: all names are asked of the AUR, in chunks.
use aursmith.Base.{
  ℕ, zero, suc, ◌≤◌, String, List, [], ◌∷◌, true, false, ◌||◌, none, ok, ◌≡◌, refl, arith, inl, inr,
  Bool-cases, Result-cases, ◌==◌, string_ord, contains, lookup, lookup-put, put, length, any, subst,
  sym,
}
use aursmith.Daemon.Builds.Usable.{take}
use aursmith.Daemon.Packages.Aur.{AurClient, AurPackage}
use aursmith.Daemon.Packages.Resolve.{drop, add_bases, find_bases}

pub length-drop : (n : ℕ) (xs : List String) → length (drop n xs) ≤ length xs
length-drop zero xs = omega arith
length-drop (suc n) [] = omega arith
length-drop (suc n) (x ∷ xs) = omega (arith, length-drop n xs)

take-drop :
    (n : ℕ) (xs : List String) (x : String)
    → contains xs x ≡ (contains (take n xs) x || contains (drop n xs) x)
take-drop zero xs x = refl
take-drop (suc n) [] x = refl
take-drop (suc n) (y ∷ xs) x = ground (arith, take-drop n xs x)

-- A name without a base is in no answer.
add_bases-none :
    (packages : List AurPackage) (bases : List (String × String)) (name : String)
    → lookup name (add_bases packages bases) ≡ none
    → (any (λ p. p.name == name) packages ≡ false) × (lookup name bases ≡ none)
add_bases-none [] bases name e = (refl, e)
add_bases-none (p ∷ packages) bases name e =
    let (rest, before) = add_bases-none packages (put p.name p.package_base bases) name e in
    let own = lookup-put p.name name p.package_base bases in
    (ground (arith, rest, before, own), ground (arith, before, own))

module _ (client : AurClient) where
  -- the AUR was asked for the name, and its answer does not have it
  abbrev pub IsAbsent : String → Type 0
  IsAbsent name =
      (query : List String) × (answer : List AurPackage) × (contains query name ≡ true)
      × (client.info query ≡ ok answer)
      × (any (λ p. p.name == name) answer ≡ false)

  find_bases-before :
      (fuel : ℕ) (names : List String) (bases result : List (String × String)) (name : String)
      → find_bases client fuel names bases ≡ ok result
      → lookup name result ≡ none
      → lookup name bases ≡ none
  unfolding find_bases
  find_bases-before fuel [] bases result name e absent =
      let same : bases ≡ result = cc in subst (λ m. lookup name m ≡ none) (sym same) absent
  find_bases-before zero (first ∷ names) bases result name e absent =
      let same : bases ≡ result = cc in subst (λ m. lookup name m ≡ none) (sym same) absent
  find_bases-before (suc fuel) (first ∷ names) bases result name e absent =
      elim (Result-cases (client.info (take 100 (first ∷ names)))) [
        | inl (error, bad) ↦ absurd (ground (arith, rw (bad, find_bases) at e))
        | inr (packages, good) ↦
            (add_bases-none packages bases name (
              find_bases-before fuel (drop 100 (first ∷ names)) (add_bases packages bases) result
                name (rw (good, find_bases) at e) absent)).1
      ]

  pub find_bases-IsAbsent :
      (fuel : ℕ) (names : List String) (bases result : List (String × String)) (name : String)
      → length names ≤ fuel
      → find_bases client fuel names bases ≡ ok result
      → contains names name ≡ true
      → lookup name result ≡ none
      → IsAbsent name
  unfolding find_bases
  find_bases-IsAbsent fuel [] bases result name few e listed absent = absurd (ground arith)
  find_bases-IsAbsent zero (first ∷ names) bases result name few e listed absent =
      absurd (omega arith)
  find_bases-IsAbsent (suc fuel) (first ∷ names) bases result name few e listed absent =
      let query = take 100 (first ∷ names) in
      let later = drop 100 (first ∷ names) in
      elim (Result-cases (client.info query)) [
        | inl (error, bad) ↦ absurd (ground (arith, rw (bad, find_bases) at e))
        | inr (packages, good) ↦
            let rest : find_bases client fuel later (add_bases packages bases) ≡ ok result =
              rw (good, find_bases) at e in
            elim (Bool-cases (contains query name)) [
              | inl here ↦ (
                query,
                packages,
                here,
                good,
                (add_bases-none packages bases name (
                    find_bases-before fuel later (add_bases packages bases) result name rest
                      absent)).0,
              )
              | inr behind ↦
                  find_bases-IsAbsent fuel later (add_bases packages bases) result name
                    (omega (arith, length-drop 99 names)) rest
                    (ground (arith, take-drop 100 (first ∷ names) name, listed, behind)) absent
            ]
      ]
