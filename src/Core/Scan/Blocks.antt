-- ===== src/Core/Scan/Blocks.antt =====
-- crates/aursmith-core/src/scan.rs: which files the scan blocks.
use aursmith.Base.{
  ℕ, String, List, [], ◌∷◌, ◌++◌, Bool, true, false, ◌||◌, string_ord, ◌≡◌, refl, ap, sym, subst,
  ◌∙◌, arith, any, any-append, any-sort_by, sort_by, has_text, to_ascii_lowercase, first_is, split,
  ◌==◌, ==_iff, nat_ord, not, if◌then◌else◌, Bool-cases, inl, inr,
}
use aursmith.Core.Names.{
  cur_dir, leaves_root, tail_components, path_components, is_absolute, components,
}
use aursmith.Core.Scan.{
  ScanFile, DeterministicFinding, escapes, if_found, finding, suspicious, block, private_targets,
  text_findings, rule_findings, content_rules, content_findings, path_findings, digest_findings,
  differs, file_findings, all_findings, by_path, is_block, drop_repeats, dedup, scan_aur_wrapper,
}

abbrev pub blocks : DeterministicFinding → Bool
blocks f = is_block f.severity

any-drop_repeats :
    (last : DeterministicFinding) (findings : List DeterministicFinding)
    → (blocks last || any blocks (drop_repeats last findings))
      ≡ (blocks last || any blocks findings)
any-drop_repeats last [] = refl
any-drop_repeats last (f ∷ findings) =
    ground (arith, any-drop_repeats last findings, any-drop_repeats f findings)

any-dedup :
    (findings : List DeterministicFinding) → any blocks (dedup findings) ≡ any blocks findings
any-dedup [] = refl
any-dedup (f ∷ findings) = any-drop_repeats f findings

rules-suspicious :
    (file : ScanFile) (text : String) (rules : List (String × (String × String)))
    → any blocks (rule_findings file text rules) ≡ false
rules-suspicious file text [] = refl
rules-suspicious file text ((rule, (marker, summary)) ∷ rules) = ground (
  arith,
  any-append blocks (if_found (has_text marker text) (finding rule suspicious file summary))
      (rule_findings file text rules),
  rules-suspicious file text rules,
)

found-suspicious :
    (test : Bool) (file : ScanFile) (rule summary : String)
    → any blocks (if_found test (finding rule suspicious file summary)) ≡ false
found-suspicious true file rule summary = refl
found-suspicious false file rule summary = refl

found-block :
    (test : Bool) (file : ScanFile) (rule summary : String)
    → any blocks (if_found test (finding rule block file summary)) ≡ test
found-block true file rule summary = refl
found-block false file rule summary = refl

-- two parts, with the verdict on each
any-both :
    (xs ys : List DeterministicFinding) (a b : Bool)
    → any blocks xs ≡ a
    → any blocks ys ≡ b
    → any blocks (xs ++ ys) ≡ (a || b)
any-both xs ys a b e f = any-append blocks xs ys ∙ ground (arith, e, f)

text-suspicious : (file : ScanFile) (text : String) → any blocks (text_findings file text) ≡ false
text-suspicious file text =
    any-both
      (if_found (any (λ marker. has_text marker text) private_targets)
        (finding "PRIVATE_NETWORK_TARGET" suspicious file _))
      (rule_findings file text content_rules) false false
      (found-suspicious (any (λ marker. has_text marker text) private_targets) file
        "PRIVATE_NETWORK_TARGET" _)
      (rules-suspicious file text content_rules)

abbrev is_up : String → Bool
is_up part = part == ".."

leaves_root-tail_components :
    (parts : List String) → any leaves_root (tail_components parts) ≡ any is_up parts
leaves_root-tail_components [] = refl
leaves_root-tail_components (part ∷ parts) = ground (
  arith,
  leaves_root-tail_components parts,
  ==_iff part "",
  ==_iff part ".",
  ==_iff part "..",
  ap is_up {x = part} {y = ""},
  ap is_up {x = part} {y = "."},
)

leaves_root-path_components :
    (absolute : Bool) (parts : List String)
    → (absolute || any leaves_root (path_components absolute parts)) ≡ (absolute || any is_up parts)
leaves_root-path_components true parts = refl
leaves_root-path_components false [] = refl
leaves_root-path_components false (first ∷ parts) = elim (Bool-cases (first == ".")) [
  | inl e ↦
      let up : is_up first ≡ false = rw ((==_iff first ".").0 e) refl in
      rw (e, up) (leaves_root-tail_components parts)
  | inr n ↦
      subst
        (λ dot.
          any leaves_root
            (if dot then cur_dir ∷ tail_components parts else tail_components (first ∷ parts))
          ≡ any is_up (first ∷ parts))
        (sym n) (leaves_root-tail_components (first ∷ parts))
]

-- A path escapes that is absolute, begins with a dash or has a component `..`.
escapes-parts :
    (path : String)
    → escapes path ≡ (
        first_is (λ c. c == b'/') path
        || first_is (λ c. c == b'-') path
        || any is_up (split b'/' path))
unfolding escapes components
escapes-parts path =
    let e = leaves_root-path_components (is_absolute path) (split b'/' path) in ground (arith, e)

any-same : {A : Type 0} (p q : A → Bool) (xs : List A) → ((x : A) → p x ≡ q x) → any p xs ≡ any q xs
any-same p q [] h = refl
any-same p q (x ∷ xs) h = ground (arith, h x, any-same p q xs h)

module _ (digest utf8 : List ℕ → String) where
  -- a file that may leave the root, or whose contents do not have the declared digest
  abbrev pub is_bad : ScanFile → Bool
  is_bad file = escapes file.path || differs digest file

  content-suspicious : (file : ScanFile) → any blocks (content_findings utf8 file) ≡ false
  content-suspicious file = elim (Bool-cases file.binary) [
    | inl e ↦ ap (any blocks) (by_kind file.binary true e)
    | inr n ↦
        ap (any blocks) (by_kind file.binary false n)
        ∙ text-suspicious file (to_ascii_lowercase (utf8 file.bytes))
  ]
    where
      binary_finding : List DeterministicFinding
      binary_finding =
          finding "AUR_BINARY_WRAPPER" suspicious file "AUR 包装仓库包含二进制文件，需要人工或 Agent 解释" ∷ []

      by_kind :
          (b c : Bool)
          → b ≡ c
          → (if b
              then binary_finding
              else text_findings file (to_ascii_lowercase (utf8 file.bytes)))
            ≡ (if c
                then binary_finding
                else text_findings file (to_ascii_lowercase (utf8 file.bytes)))
      by_kind b c e =
          ap
            (λ x.
              if x
              then binary_finding
              else text_findings file (to_ascii_lowercase (utf8 file.bytes)))
            e

  file-blocks : (file : ScanFile) → any blocks (file_findings digest utf8 file) ≡ is_bad file
  unfolding file_findings
  file-blocks file =
      any-both (path_findings file) (digest_findings digest file ++ content_findings utf8 file)
        (escapes file.path) (differs digest file)
        (found-block (escapes file.path) file "AUR_PATH_ESCAPE" "AUR 文件路径可能逃逸快照根目录")
        (any-both (digest_findings digest file) (content_findings utf8 file) (differs digest file)
            false (found-block (differs digest file) file "AUR_DIGEST_MISMATCH" "AUR 文件内容与声明摘要不一致")
            (content-suspicious file)
          ∙ or_false (differs digest file))
    where
      or_false : (b : Bool) → (b || false) ≡ b
      or_false true = refl
      or_false false = refl

  all-blocks :
      (files : List ScanFile) → any blocks (all_findings digest utf8 files) ≡ any is_bad files
  all-blocks [] = refl
  all-blocks (file ∷ files) =
      any-append blocks (file_findings digest utf8 file) (all_findings digest utf8 files)
      ∙ ground (arith, file-blocks file, all-blocks files)

  -- The scan blocks exactly if the path of some file is absolute, begins with a dash or has a component
  -- `..`, or the SHA-256 of its contents is not the declared one, whatever the case of its letters.
  pub scan_aur_wrapper-blocks :
      (files : List ScanFile)
      → any blocks (scan_aur_wrapper digest utf8 files)
        ≡ any
            (λ file.
              first_is (λ c. c == b'/') file.path
              || first_is (λ c. c == b'-') file.path
              || any (λ part. part == "..") (split b'/' file.path)
              || not (digest file.bytes == to_ascii_lowercase file.declared_sha256))
            files
  unfolding scan_aur_wrapper
  scan_aur_wrapper-blocks files =
      any-dedup (sort_by by_path (all_findings digest utf8 files))
      ∙ any-sort_by blocks by_path (all_findings digest utf8 files)
      ∙ all-blocks files
      ∙ any-same is_bad
          (λ file.
            first_is (λ c. c == b'/') file.path
            || first_is (λ c. c == b'-') file.path
            || any is_up (split b'/' file.path)
            || differs digest file)
          files (λ file. ground (arith, escapes-parts file.path))
