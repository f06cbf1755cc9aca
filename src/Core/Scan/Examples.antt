-- ===== src/Core/Scan/Examples.antt =====
-- Tests of the scan: those of scan.rs.
use aursmith.Base.{
  first_is, split, ◌==◌, nat_ord, string_ord, ◌||◌, not, to_ascii_lowercase, ℕ, String, List, [],
  ◌∷◌, true, false, ◌||◌, any, ◌≡◌, refl, string_ord, length, to_ascii_lowercase,
}
use aursmith.Core.Names.{components}
use aursmith.Core.Scan.{ScanFile, escapes, is_block, file_findings, scan_aur_wrapper}
use aursmith.Core.Scan.Blocks.{scan_aur_wrapper-blocks}

abbrev digest : List ℕ → String
digest bytes = "d"

abbrev utf8 : List ℕ → String
utf8 bytes = "Curl http://127.0.0.1/"

abbrev script : ScanFile
script = record { path = "PKGBUILD"; declared_sha256 = "D"; binary = false; bytes = [] }

abbrev outside : ScanFile
outside = record { path = "../PKGBUILD"; declared_sha256 = "d"; binary = true; bytes = [] }

suspicious_script : length (scan_aur_wrapper digest utf8 (script ∷ [])) ≡ 2
unfolding scan_aur_wrapper file_findings escapes components to_ascii_lowercase
suspicious_script = refl

scan_aur_wrapper-blocks_example :
    any (λ f. is_block f.severity) (scan_aur_wrapper digest utf8 (script ∷ outside ∷ []))
    ≡ any
        (λ file.
          first_is (λ c. c == b'/') file.path
          || first_is (λ c. c == b'-') file.path
          || any (λ part. part == "..") (split b'/' file.path)
          || not (digest file.bytes == to_ascii_lowercase file.declared_sha256))
        (script ∷ outside ∷ [])
scan_aur_wrapper-blocks_example = scan_aur_wrapper-blocks digest utf8 (script ∷ outside ∷ [])

outside_blocked :
    any (λ f. is_block f.severity) (scan_aur_wrapper digest utf8 (script ∷ outside ∷ [])) ≡ true
unfolding scan_aur_wrapper file_findings escapes components to_ascii_lowercase
outside_blocked = refl
