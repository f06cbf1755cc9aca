-- ===== src/Core/Scan.antt =====
-- crates/aursmith-core/src/scan.rs: the deterministic scan of the files of an AUR repository. SHA-256 of
-- bytes and the lossy UTF-8 text of bytes are parameters.
pub mod Blocks
mod Examples
use aursmith.Base.{
  ℕ, String, List, [], ◌∷◌, ◌++◌, Bool, true, false, not, ◌||◌, ◌&&◌, Ordering, ◌==◌, string_ord,
  pair_ord, nat_ord, any, first_is, has_text, sort_by, to_ascii_lowercase, if◌then◌else◌, Ord,
  pair_cmp,
}
use aursmith.Core.Names.{components, is_absolute, leaves_root}

pub record ScanFile : Type 0 where
  pub path : String
  pub declared_sha256 : String
  pub binary : Bool
  pub bytes : List ℕ

pub data FindingSeverity : Type 0 where
  suspicious block : FindingSeverity

pub record DeterministicFinding : Type 0 where
  pub rule_id : String
  pub severity : FindingSeverity
  pub path : String
  pub summary : String

abbrev pub finding : String → FindingSeverity → ScanFile → String → DeterministicFinding
finding rule_id severity file summary = record {
  rule_id = rule_id;
  severity = severity;
  path = file.path;
  summary = summary;
}

unfoldable pub escapes : String → Bool
escapes path =
    is_absolute path || first_is (λ c. c == b'-') path || any leaves_root (components path)

abbrev pub if_found : Bool → DeterministicFinding → List DeterministicFinding
if_found true f = f ∷ []
if_found false f = []

abbrev pub private_targets : List String
private_targets =
    "://127.0.0.1" ∷ "://localhost" ∷ "://169.254." ∷ "://0.0.0.0" ∷ "://[::1]" ∷ "://10."
    ∷ "://192.168." ∷ []

abbrev pub content_rules : List (String × (String × String))
content_rules =
    ("DYNAMIC_NETWORK", ("curl ", "构建逻辑中出现动态网络工具"))
    ∷ ("DYNAMIC_NETWORK", ("wget ", "构建逻辑中出现动态网络工具"))
    ∷ ("SHELL_EVAL", ("eval ", "包装逻辑使用动态 Shell 求值"))
    ∷ ("OBFUSCATED_PAYLOAD", ("base64 -d", "包装逻辑解码内嵌载荷"))
    ∷ ("PERSISTENCE_HOOK", (".install", "软件包声明安装脚本或持久化钩子"))
    ∷ ("PRIVILEGE_CHANGE", ("setcap ", "包装逻辑修改文件 capability"))
    ∷ []

-- the loop over the rules on the text of a file
abbrev pub rule_findings :
    ScanFile → String → List (String × (String × String)) → List DeterministicFinding
rule_findings file text [] = []
rule_findings file text ((rule, (marker, summary)) ∷ rules) =
    if_found (has_text marker text) (finding rule suspicious file summary)
    ++ rule_findings file text rules

abbrev pub text_findings : ScanFile → String → List DeterministicFinding
text_findings file text =
    if_found (any (λ marker. has_text marker text) private_targets)
      (finding "PRIVATE_NETWORK_TARGET" suspicious file "包装文件引用私网、回环或链路本地目标，需要结合用途审计")
    ++ rule_findings file text content_rules

abbrev pub content_findings : (List ℕ → String) → ScanFile → List DeterministicFinding
content_findings utf8 file =
    if file.binary
    then finding "AUR_BINARY_WRAPPER" suspicious file "AUR 包装仓库包含二进制文件，需要人工或 Agent 解释" ∷ []
    else text_findings file (to_ascii_lowercase (utf8 file.bytes))

abbrev pub path_findings : ScanFile → List DeterministicFinding
path_findings file =
    if_found (escapes file.path) (finding "AUR_PATH_ESCAPE" block file "AUR 文件路径可能逃逸快照根目录")

-- the contents do not have the declared digest
abbrev pub differs : (List ℕ → String) → ScanFile → Bool
differs digest file = not (digest file.bytes == to_ascii_lowercase file.declared_sha256)

abbrev pub digest_findings : (List ℕ → String) → ScanFile → List DeterministicFinding
digest_findings digest file =
    if_found (differs digest file) (finding "AUR_DIGEST_MISMATCH" block file "AUR 文件内容与声明摘要不一致")

-- one round of the loop over the files
unfoldable pub file_findings :
    (List ℕ → String) → (List ℕ → String) → ScanFile → List DeterministicFinding
unfolding escapes
file_findings digest utf8 file =
    path_findings file ++ (digest_findings digest file ++ content_findings utf8 file)

abbrev pub all_findings :
    (List ℕ → String) → (List ℕ → String) → List ScanFile → List DeterministicFinding
all_findings digest utf8 [] = []
all_findings digest utf8 (file ∷ files) =
    file_findings digest utf8 file ++ all_findings digest utf8 files

abbrev pub by_path : DeterministicFinding → DeterministicFinding → Ordering
by_path left right =
    let key : DeterministicFinding → String × (String × String) =
      λ f. (f.path, (f.rule_id, f.summary)) in
    pair_cmp (key left) (key right)

abbrev pub is_block : FindingSeverity → Bool
is_block suspicious = false
is_block block = true

abbrev pub same_severity : FindingSeverity → FindingSeverity → Bool
same_severity left right = if is_block left then is_block right else not (is_block right)

abbrev pub same_finding : DeterministicFinding → DeterministicFinding → Bool
same_finding left right =
    left.rule_id == right.rule_id
    && same_severity left.severity right.severity
    && left.path == right.path
    && left.summary == right.summary

-- `dedup`: an element equal to the one kept before it goes
abbrev pub drop_repeats :
    DeterministicFinding → List DeterministicFinding → List DeterministicFinding
drop_repeats last [] = []
drop_repeats last (f ∷ findings) =
    let same = drop_repeats last findings in
    let other = drop_repeats f findings in if same_finding last f then same else f ∷ other

abbrev pub dedup : List DeterministicFinding → List DeterministicFinding
dedup [] = []
dedup (f ∷ findings) = f ∷ drop_repeats f findings

unfoldable pub scan_aur_wrapper :
    (List ℕ → String) → (List ℕ → String) → List ScanFile → List DeterministicFinding
unfolding file_findings
scan_aur_wrapper digest utf8 files = dedup (sort_by by_path (all_findings digest utf8 files))
