-- ===== src/Core/Srcinfo/Fields.antt =====
-- What an accepted `.SRCINFO` says: each list of the result holds the values of its lines.
use aursmith.Base.{
  String, map, foldl, true, false, Option, none, some, string_ord, pair_ord, ◌≡◌, contains,
  IsSorted, is_empty, lines, ◌+++◌, is_some, to_ascii_uppercase,
}
use aursmith.Core.Srcinfo.Values.{values, last_or}
use aursmith.Core.Srcinfo.{
  pkgver, pkgrel, epoch, Key, pkgbase, pkgname, depends, makedepends, checkdepends, optdepends,
  arch, validpgpkeys, source, Dependency, SrcInfo, Parsed, nothing_parsed, dependency_name,
  parse_line, is_base, epoch_prefix,
}

abbrev pub output_of : Key → String → Option String
output_of pkgname value = some value
output_of _ value = none

abbrev pub source_of : Key → String → Option String
source_of source value = some value
source_of _ value = none

abbrev pub provided_of : Key → String → Option String
provided_of Key.provides value = some (dependency_name value)
provided_of _ value = none

abbrev pub optional_of : Key → String → Option String
optional_of optdepends value = some (dependency_name value)
optional_of _ value = none

abbrev pub architecture_of : Key → String → Option String
architecture_of arch value = some value
architecture_of _ value = none

abbrev pub key_id_of : Key → String → Option String
key_id_of validpgpkeys value = some (to_ascii_uppercase value)
key_id_of _ value = none

abbrev pub dependency_of : Key → String → Option (String × String)
dependency_of depends value = some (dependency_name value, "runtime")
dependency_of makedepends value = some (dependency_name value, "build")
dependency_of checkdepends value = some (dependency_name value, "check")
dependency_of _ value = none

abbrev pub pair_of : Dependency → String × String
pair_of d = (d.name, d.kind)

abbrev pub base_of : Key → String → Option String
base_of pkgbase value = some value
base_of _ value = none

abbrev pub version_of : Key → String → Option String
version_of pkgver value = some value
version_of _ value = none

abbrev pub release_of : Key → String → Option String
release_of pkgrel value = some value
release_of _ value = none

abbrev pub epoch_of : Key → String → Option String
epoch_of epoch value = some value
epoch_of _ value = none

-- The identity of the result: the package that was expected is the last one that the text declares,
-- and the version is made of the last values given.
pub record IsIdentified (expected text : String) (info : SrcInfo) : Type 0 where
  pub base : info.package_base ≡ expected
  pub declared : last_or none (values base_of (lines text)) ≡ some expected
  pub version :
      (v r : String)
      → last_or none (values version_of (lines text)) ≡ some v
      → last_or none (values release_of (lines text)) ≡ some r
      → info.version
        ≡ (epoch_prefix (last_or none (values epoch_of (lines text))) +++ v +++ "-" +++ r)
  pub versioned : is_some (last_or none (values version_of (lines text))) ≡ true
  pub released : is_some (last_or none (values release_of (lines text))) ≡ true

-- The lists of the result: each holds exactly the values of its lines, and there is an output.
pub record IsFilled (text : String) (info : SrcInfo) : Type 0 where
  pub outputs : (o : String) → contains info.outputs o ≡ contains (values output_of (lines text)) o
  pub some_output : is_empty info.outputs ≡ false
  pub outputs_sorted : IsSorted info.outputs
  pub sources : (s : String) → contains info.sources s ≡ contains (values source_of (lines text)) s
  pub provides :
      (s : String) → contains info.provides s ≡ contains (values provided_of (lines text)) s
  pub optional_dependencies :
      (s : String)
      → contains info.optional_dependencies s ≡ contains (values optional_of (lines text)) s
  pub architectures :
      (s : String)
      → contains info.architectures s ≡ contains (values architecture_of (lines text)) s
  pub valid_pgp_keys :
      (s : String) → contains info.valid_pgp_keys s ≡ contains (values key_id_of (lines text)) s
  pub dependencies :
      (d : String × String)
      → contains (map pair_of info.dependencies) d ≡ contains (values dependency_of (lines text)) d

module _ (expected text : String) where
  abbrev final : Parsed
  final = foldl parse_line nothing_parsed (lines text)

  record Finished (p : Parsed) (info : SrcInfo) : Type 0 where
    base : info.package_base ≡ expected
    declared : is_base p.declared_base expected ≡ true
    some_output : is_empty p.outputs ≡ false
    outputs : info.outputs ≡ p.outputs
    sources : info.sources ≡ p.sources
    provides : info.provides ≡ p.provides
    optional_dependencies : info.optional_dependencies ≡ p.optional_dependencies
    architectures : info.architectures ≡ p.architectures
    valid_pgp_keys : info.valid_pgp_keys ≡ p.valid_pgp_keys
    dependencies : map pair_of info.dependencies ≡ p.dependencies
    version :
        (v r : String)
        → p.pkgver ≡ some v
        → p.pkgrel ≡ some r
        → info.version ≡ (epoch_prefix p.epoch +++ v +++ "-" +++ r)
    versioned : is_some p.pkgver ≡ true
    released : is_some p.pkgrel ≡ true
