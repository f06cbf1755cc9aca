-- ===== src/Daemon/Packages/Resolve.antt =====
-- crates/aursmithd/src/packages.rs: the dependencies of a snapshot are resolved.
pub mod Asked
pub mod Sound
use aursmith.Base.{
  ℕ, zero, suc, String, List, [], ◌∷◌, ◌++◌, map, Bool, true, false, not, Option, none, some,
  Result, ok, err, is_ok, string_ord, contains, to_set, lookup, put, keep, length, is_empty, ◌>>=◌,
  if◌then◌else◌,
}
use aursmith.Core.Names.{validate_package_name}
use aursmith.Core.Srcinfo.{SrcInfo, Dependency}
use aursmith.Daemon.State.{
  ResolvedDependency, DependencyState, official, aur, needs_selection, unknown,
}
use aursmith.Daemon.Builds.Usable.{take}
use aursmith.Daemon.Packages.Aur.{AurClient, AurPackage}

abbrev pub maximum_dependencies : ℕ
maximum_dependencies = 256

abbrev pub drop : {A : Type 0} → ℕ → List A → List A
drop zero xs = xs
drop (suc n) [] = []
drop (suc n) (x ∷ xs) = drop n xs

-- the dependencies that the package does not meet itself
unfoldable pub foreign_dependencies : SrcInfo → List Dependency
foreign_dependencies info =
    take maximum_dependencies
      (keep (λ d. not (contains (to_set (info.outputs ++ info.provides)) d.name)) info.dependencies)

abbrev pub is_valid_name : String → Bool
is_valid_name name = is_ok (validate_package_name name)

abbrev pub names_of : List Dependency → List String
names_of dependencies = keep is_valid_name (to_set (map (λ d. d.name) dependencies))

abbrev pub add_bases : List AurPackage → List (String × String) → List (String × String)
add_bases [] bases = bases
add_bases (p ∷ packages) bases = add_bases packages (put p.name p.package_base bases)

-- the loop over `names.chunks(100)`
unfoldable pub find_bases :
    AurClient → ℕ → List String → List (String × String) → Result (List (String × String)) String
find_bases client fuel [] bases = ok bases
find_bases client zero (name ∷ names) bases = ok bases
find_bases client (suc fuel) (name ∷ names) bases = do
  packages ← client.info (take 100 (name ∷ names))
  find_bases client fuel (drop 100 (name ∷ names)) (add_bases packages bases)

pub record Resolution : Type 0 where
  pub state : DependencyState
  pub target : Option String
  pub candidates : List String

abbrev pub unknown_resolution : Resolution
unknown_resolution = record { state = unknown; target = none; candidates = [] }

-- `match candidates.len()`
abbrev pub resolution_of : List String → Resolution
resolution_of [] = unknown_resolution
resolution_of (base ∷ []) = record { state = aur; target = some base; candidates = base ∷ [] }
resolution_of (base ∷ other ∷ rest) = record {
  state = needs_selection;
  target = none;
  candidates = base ∷ other ∷ rest;
}

abbrev pub provider_bases : List AurPackage → List String
provider_bases packages = to_set (map (λ p. p.package_base) packages)

abbrev pub resolve_elsewhere : AurClient → String → List String → Result Resolution String
resolve_elsewhere client name (first ∷ rest) =
    ok (record { state = official; target = none; candidates = [] })
resolve_elsewhere client name [] = do
  packages ← client.providers name
  ok (resolution_of (provider_bases packages))

abbrev pub resolve_name : AurClient → List (String × String) → String → Result Resolution String
resolve_name client bases name = elim (lookup name bases) [
  | some base ↦ ok (record { state = aur; target = some base; candidates = [] })
  | none ↦ client.official name >>= resolve_elsewhere client name
]

abbrev pub Resolutions : Type 0
Resolutions = List (String × Resolution)

-- the loop over the names
unfoldable pub resolve_names :
    AurClient → List (String × String) → List String → Resolutions → Result Resolutions String
resolve_names client bases [] found = ok found
resolve_names client bases (name ∷ names) found = do
  resolution ← resolve_name client bases name
  resolve_names client bases names (put name resolution found)

abbrev pub or_unknown : Option Resolution → Resolution
or_unknown none = unknown_resolution
or_unknown (some resolution) = resolution

abbrev pub resolved : Resolutions → Dependency → ResolvedDependency
resolved found d =
    let resolution = or_unknown (lookup d.name found) in
    record {
      name = d.name;
      kind = d.kind;
      state = resolution.state;
      target = resolution.target;
      candidates = resolution.candidates;
    }

unfoldable pub resolve_dependencies : AurClient → SrcInfo → Result (List ResolvedDependency) String
unfolding foreign_dependencies find_bases resolve_names
resolve_dependencies client info =
    let dependencies = foreign_dependencies info in
    let names = names_of dependencies in
    do
      bases ← find_bases client (length names) names []
      found ← resolve_names client bases names []
      ok (map (resolved found) dependencies)
