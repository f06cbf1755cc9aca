-- ===== src/Core/Names/Examples.antt =====
-- Tests of the names' module.
use aursmith.Base.{ℕ, String, ◌≡◌, refl, [], ◌∷◌, some, ok, err}
use aursmith.Core.Names.Confined.{
  descend, validate_artifact_file_name-components, validate_relative_path-descend,
  validate_package_name-relative,
}
use aursmith.Core.Names.{
  components, normal, validate_package_name, validate_relative_path, validate_artifact_file_name,
  path_name, artifact_name,
}

package_name_plain : validate_package_name "python-foo_bar+1@x" ≡ ok "python-foo_bar+1@x"
unfolding validate_package_name
package_name_plain = refl

relative_path_plain : validate_relative_path "src/patch.diff" ≡ ok "src/patch.diff"
unfolding validate_relative_path components
relative_path_plain = refl

relative_path_traversal :
    validate_relative_path "../../etc/shadow" ≡ err (path_name "../../etc/shadow")
unfolding validate_relative_path components
relative_path_traversal = refl

artifact_name_plain :
    validate_artifact_file_name "foo-1:2.0-1-x86_64.pkg.tar.zst"
    ≡ ok "foo-1:2.0-1-x86_64.pkg.tar.zst"
unfolding validate_artifact_file_name
artifact_name_plain = refl

artifact_name_signature :
    validate_artifact_file_name "foo-1-1-x86_64.pkg.tar.zst.sig"
    ≡ err (artifact_name "foo-1-1-x86_64.pkg.tar.zst.sig")
unfolding validate_artifact_file_name
artifact_name_signature = refl

validate_artifact_file_name-components_example :
    (◌≡◌ {A = String} "foo-1:2.0-1-x86_64.pkg.tar.zst" "foo-1:2.0-1-x86_64.pkg.tar.zst")
    × (components "foo-1:2.0-1-x86_64.pkg.tar.zst" ≡ normal "foo-1:2.0-1-x86_64.pkg.tar.zst" ∷ [])
validate_artifact_file_name-components_example =
    validate_artifact_file_name-components "foo-1:2.0-1-x86_64.pkg.tar.zst"
      "foo-1:2.0-1-x86_64.pkg.tar.zst" artifact_name_plain

validate_relative_path-descend_example :
    (◌≡◌ {A = String} "src/patch.diff" "src/patch.diff")
    × ((end : ℕ) × (descend 0 (components "src/patch.diff") ≡ some end))
validate_relative_path-descend_example =
    validate_relative_path-descend "src/patch.diff" "src/patch.diff" relative_path_plain

validate_package_name-relative_example :
    (components "python-foo_bar+1@x" ≡ normal "python-foo_bar+1@x" ∷ [])
    × (validate_relative_path "python-foo_bar+1@x" ≡ ok "python-foo_bar+1@x")
validate_package_name-relative_example =
    validate_package_name-relative "python-foo_bar+1@x" "python-foo_bar+1@x" package_name_plain
