-- ===== src/Daemon/Packages/Resolve/Sound.antt =====
-- crates/aursmithd/src/packages.rs: each dependency is resolved as the answers of the client say.
use aursmith.Base.{
  ℕ, zero, suc, ◌≤◌, String, List, [], ◌∷◌, ◌++◌, Bool, true, false, ◌&&◌, none, some, ok, ◌≡◌,
  refl, arith, inl, inr, Result-cases, ◌==◌, string_ord, contains, length, any, ◌>>=◌,
}
use aursmith.Core.Srcinfo.{SrcInfo}
use aursmith.Daemon.State.{ResolvedDependency, official, aur}
use aursmith.Daemon.Builds.Usable.{take}
use aursmith.Daemon.Packages.Aur.{AurClient, AurPackage}
use aursmith.Daemon.Packages.Resolve.Asked.{IsAbsent, length-drop}
use aursmith.Daemon.Packages.Resolve.{
  drop, is_valid_name, add_bases, find_bases, Resolution, unknown_resolution, resolution_of,
  provider_bases,
}

module _ (client : AurClient) where
  -- a package of the name with this base, in an answer
  abbrev pub is_named : String → String → AurPackage → Bool
  is_named name base p = p.name == name && p.package_base == base

  abbrev pub IsKnown : String × String → Type 0
  IsKnown (name, base) =
      (query : List String) × (answer : List AurPackage) × (client.info query ≡ ok answer)
      × (any (is_named name base) answer ≡ true)

  -- what the answers of the client make of a name
  pub data Resolves (name : String) : Resolution → Type 0 where
    by_name :
        (base : String)
        → IsKnown (name, base)
        → Resolves name (record { state = aur; target = some base; candidates = [] })
    by_official :
        (first : String) (rest : List String)
        → IsAbsent client name
        → client.official name ≡ ok (first ∷ rest)
        → Resolves name (record { state = official; target = none; candidates = [] })
    by_providers :
        (packages : List AurPackage)
        → IsAbsent client name
        → client.official name ≡ ok []
        → client.providers name ≡ ok packages
        → Resolves name (resolution_of (provider_bases packages))

  abbrev Right : String × Resolution → Type 0
  Right (name, r) = Resolves name r

  -- a resolved dependency, read as a resolution of its name
  abbrev pub resolution : ResolvedDependency → Resolution
  resolution d = record { state = d.state; target = d.target; candidates = d.candidates }

  abbrev pub IsResolved : ResolvedDependency → Type 0
  IsResolved d =
      (is_valid_name d.name ≡ true → Resolves d.name (resolution d))
      × (is_valid_name d.name ≡ false → resolution d ≡ unknown_resolution)

-- a dependency that the package does not meet itself
abbrev pub IsForeign : SrcInfo → String → Type 0
IsForeign info name = contains (info.outputs ++ info.provides) name ≡ false

-- The loop over the chunks takes as many steps as there are names at most.
find_bases-fuel :
    (client : AurClient) (fuel : ℕ) (names : List String) (bases : List (String × String))
    → length names ≤ fuel
    → find_bases client (suc fuel) names bases ≡ find_bases client fuel names bases
unfolding find_bases
find_bases-fuel client fuel [] bases h = refl
find_bases-fuel client zero (name ∷ names) bases h = absurd (omega arith)
find_bases-fuel client (suc fuel) (name ∷ names) bases h =
    elim (Result-cases (client.info (take 100 (name ∷ names)))) [
      | inl (error, bad) ↦ rw (bad, ◌>>=◌) refl
      | inr (packages, good) ↦
          rw (good, ◌>>=◌)
            (find_bases-fuel client fuel (drop 100 (name ∷ names)) (add_bases packages bases)
              (omega (arith, length-drop 99 names)))
    ]
