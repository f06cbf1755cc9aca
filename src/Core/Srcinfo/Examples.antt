-- ===== src/Core/Srcinfo/Examples.antt =====
-- Tests of the `.SRCINFO` reader: those of srcinfo.rs.
use aursmith.Base.{String, ◌≡◌, refl, [], ◌∷◌, some, err, to_ascii_uppercase}
use aursmith.Core.Srcinfo.{
  SrcInfo, parse_srcinfo, key_of, assign, read_line, dependency_name, git_vcs_source, identity,
  missing,
}

abbrev sample : String
sample =
    "pkgbase = demo\n\tpkgver = 1.2\n\tpkgrel = 3\n\tepoch = 1\n\tarch = x86_64\n\tdepends = glibc>=2\n\tmakedepends = rust\n\toptdepends = foo: text\n\tsource = git+https://example.org/demo.git#tag=v1.2\n\tvalidpgpkeys = abcdef\n\npkgname = demo\n\tprovides = demo-bin=1.2\n\npkgname = demo-docs\n"

abbrev demo_info : SrcInfo
demo_info = record {
  package_base = "demo";
  version = "1:1.2-3";
  outputs = "demo" ∷ "demo-docs" ∷ [];
  dependencies =
      record { name = "glibc"; kind = "runtime" } ∷ record { name = "rust"; kind = "build" } ∷ [];
  optional_dependencies = "foo" ∷ [];
  provides = "demo-bin" ∷ [];
  architectures = "x86_64" ∷ [];
  sources = "git+https://example.org/demo.git#tag=v1.2" ∷ [];
  valid_pgp_keys = "ABCDEF" ∷ [];
}

other_base : parse_srcinfo "other" sample ≡ err identity
unfolding parse_srcinfo key_of assign read_line dependency_name to_ascii_uppercase
other_base = refl

no_version : parse_srcinfo "demo" "pkgbase = demo\npkgname = demo\n" ≡ err (missing "pkgver")
unfolding parse_srcinfo key_of assign read_line
no_version = refl

sample_git : git_vcs_source demo_info.sources ≡ some "git+https://example.org/demo.git#tag=v1.2"
unfolding git_vcs_source
sample_git = refl

renamed_git :
    git_vcs_source ("a.patch" ∷ "demo::git+https://example.org/x.git" ∷ [])
    ≡ some "git+https://example.org/x.git"
unfolding git_vcs_source
renamed_git = refl
