-- ===== src/Core/Srcinfo.antt =====
-- crates/aursmith-core/src/srcinfo.rs: the static reader of `.SRCINFO`. A `BTreeSet` is an ascending
-- list; the loop over the lines is a fold, and its local variables are the record `Parsed`.
pub mod Values
pub mod Fields
mod Examples
use aursmith.Base.{
  ℕ, String, ◌+++◌, List, [], ◌∷◌, map, foldl, Bool, true, false, not, ◌&&◌, ◌||◌, Option, none,
  some, Result, ok, err, ◌>>=◌, ◌>>◌, require, ok_or, ◌==◌, nat_ord, string_ord, pair_ord, insert,
  is_empty, trim, split_once, split_once_text, first_piece, is_one_of, lines, to_ascii_uppercase,
  starts_with, if◌then◌else◌,
}

-- `kind` is `runtime`, `build` or `check`.
pub record Dependency : Type 0 where
  pub name : String
  pub kind : String

pub record SrcInfo : Type 0 where
  pub package_base : String
  pub version : String
  pub outputs : List String
  pub dependencies : List Dependency
  pub optional_dependencies : List String
  pub provides : List String
  pub architectures : List String
  pub sources : List String
  pub valid_pgp_keys : List String

pub data SrcInfoError : Type 0 where
  identity : SrcInfoError
  missing : String → SrcInfoError

-- the keys that the loop tells apart
pub data Key : Type 0 where
  pkgbase pkgver pkgrel epoch pkgname depends makedepends checkdepends optdepends provides arch :
      Key
  validpgpkeys source other : Key

unfoldable pub key_of : String → Key
key_of key =
    if key == "pkgbase"
    then pkgbase
    else if key == "pkgver"
    then pkgver
    else if key == "pkgrel"
    then pkgrel
    else if key == "epoch"
    then epoch
    else if key == "pkgname"
    then pkgname
    else if key == "depends" || key == "depends_x86_64"
    then depends
    else if key == "makedepends" || key == "makedepends_x86_64"
    then makedepends
    else if key == "checkdepends" || key == "checkdepends_x86_64"
    then checkdepends
    else if key == "optdepends" || key == "optdepends_x86_64"
    then optdepends
    else if key == "provides" || key == "provides_x86_64"
    then Key.provides
    else if key == "arch"
    then arch
    else if key == "validpgpkeys"
    then validpgpkeys
    else if key == "source" || key == "source_x86_64"
    then source
    else other

pub record Parsed : Type 0 where
  pub declared_base : Option String
  pub pkgver : Option String
  pub pkgrel : Option String
  pub epoch : Option String
  pub outputs : List String
  pub dependencies : List (String × String)
  pub optional_dependencies : List String
  pub provides : List String
  pub architectures : List String
  pub sources : List String
  pub valid_pgp_keys : List String

abbrev pub nothing_parsed : Parsed
nothing_parsed = record {
  declared_base = none;
  pkgver = none;
  pkgrel = none;
  epoch = none;
  outputs = [];
  dependencies = [];
  optional_dependencies = [];
  provides = [];
  architectures = [];
  sources = [];
  valid_pgp_keys = [];
}

-- The name without a version bound or the description of an optional dependency.
unfoldable pub dependency_name : String → String
dependency_name value = trim (first_piece (is_one_of "<>=:") value)

unfoldable pub assign : Key → String → Parsed → Parsed
assign pkgbase value p = record p { declared_base = some value }
assign pkgver value p = record p { pkgver = some value }
assign pkgrel value p = record p { pkgrel = some value }
assign epoch value p = record p { epoch = some value }
assign pkgname value p = record p { outputs = insert value p.outputs }
assign depends value p = record p {
  dependencies = insert (dependency_name value, "runtime") p.dependencies;
}
assign makedepends value p = record p {
  dependencies = insert (dependency_name value, "build") p.dependencies;
}
assign checkdepends value p = record p {
  dependencies = insert (dependency_name value, "check") p.dependencies;
}
assign optdepends value p = record p {
  optional_dependencies = insert (dependency_name value) p.optional_dependencies;
}
assign Key.provides value p = record p { provides = insert (dependency_name value) p.provides }
assign arch value p = record p { architectures = insert value p.architectures }
assign validpgpkeys value p = record p {
  valid_pgp_keys = insert (to_ascii_uppercase value) p.valid_pgp_keys;
}
assign source value p = record p { sources = insert value p.sources }
assign other value p = p

-- the key and the value of a line, where it has both
abbrev field_of : Option (String × String) → Option (String × String)
field_of none = none
field_of (some (raw_key, raw_value)) =
    if trim raw_value == "" then none else some (trim raw_key, trim raw_value)

unfoldable pub read_line : String → Option (String × String)
read_line line = field_of (split_once b'=' (trim line))

abbrev pub assign_field : Option (String × String) → Parsed → Parsed
assign_field none p = p
assign_field (some (key, value)) p = assign (key_of key) value p

-- one round of the loop
pub parse_line : Parsed → String → Parsed
parse_line p line = assign_field (read_line line) p

-- the epoch, where it is not 0, with its colon
abbrev pub epoch_prefix : Option String → String
epoch_prefix none = ""
epoch_prefix (some e) = if e == "0" then "" else e +++ ":"

abbrev pub is_base : Option String → String → Bool
is_base none expected = false
is_base (some declared) expected = declared == expected

abbrev pub finish : String → Parsed → Result SrcInfo SrcInfoError
finish expected p = do
  require (is_base p.declared_base expected && not (is_empty p.outputs)) identity
  version ← ok_or (missing "pkgver") p.pkgver
  release ← ok_or (missing "pkgrel") p.pkgrel
  ok (record {
    package_base = expected;
    version = epoch_prefix p.epoch +++ version +++ "-" +++ release;
    outputs = p.outputs;
    dependencies = map (λ d. record { name = d.0; kind = d.1 }) p.dependencies;
    optional_dependencies = p.optional_dependencies;
    provides = p.provides;
    architectures = p.architectures;
    sources = p.sources;
    valid_pgp_keys = p.valid_pgp_keys;
  })

unfoldable pub parse_srcinfo : String → String → Result SrcInfo SrcInfoError
unfolding parse_line
parse_srcinfo expected text = finish expected (foldl parse_line nothing_parsed (lines text))

abbrev git_value : String → String
git_value url = elim (split_once_text "::" url) [ none ↦ url | some (name, value) ↦ value ]

-- The first source that is fetched by git over https, without its local name.
unfoldable pub git_vcs_source : List String → Option String
git_vcs_source [] = none
git_vcs_source (s ∷ rest_sources) =
    let rest = git_vcs_source rest_sources in
    if starts_with (git_value s) "git+https://" then some (git_value s) else rest
