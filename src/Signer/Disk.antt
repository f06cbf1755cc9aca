-- ===== src/Signer/Disk.antt =====
-- crates/aursmithd/src/signer.rs: what the signer sees of the disk, and the programs it runs. A directory
-- is a function from names to contents; a file system without faults is assumed.
use aursmith.Base.{
  ℕ, String, ◌+++◌, List, Bool, Option, none, some, Result, ok, err, ◌≡◌, refl, arith, ◌==◌,
  string_ord, if◌then◌else◌,
}
use aursmith.Base.Run.{Run}
use aursmith.Core.Names.{NameError}
use aursmith.Core.Protocol.{PublishPlan, PublishManifest}
use aursmith.Daemon.Publish.Plan.{Codec}
use aursmith.Daemon.State.{Bytes, Directory, Exchange}

-- the exchange with the daemon; the regular files and the links of `x86_64`; the directories and the
-- links of `x86_64/releases`
pub record Disk : Type 0 where
  pub exchange : Exchange
  pub arch : Directory
  pub arch_links : String → Option String
  pub releases : String → Option Directory
  pub release_links : String → Option String

pub data Failure : Type 0 where
  unsupported_format : ℕ → Failure
  invalid_name : NameError → Failure
  message : String → Failure
  -- of the system or of a program that was run
  trouble : Failure

-- what the code calls: the same serde and SHA-256 as the daemon, and gpg, with the names that `read_dir`
-- gives for `x86_64` and its releases; of a manifest as a `Value`, the `file` and the `path` of each entry
pub record Tools : Type 0 where
  pub codec : Codec
  pub read_plan : Bytes → Option PublishPlan
  pub read_manifest : Bytes → Option PublishManifest
  pub manifest_entries : Bytes → Option (List (Option String × Option String))
  pub verify : Bytes → Bytes → Bool
  pub arch_names : Disk → List String
  pub release_names : Disk → List String

abbrev pub Act : Type 0 → Type 0
Act A = Run Disk Failure A

-- `atomic_link` in `x86_64` and in its releases
abbrev pub link_arch : String → String → Disk → Disk
link_arch name target d = record d {
  arch_links = λ other. if other == name then some target else d.arch_links other;
}

abbrev pub link_release : String → String → Disk → Disk
link_release name target d = record d {
  release_links = λ other. if other == name then some target else d.release_links other;
}

abbrev pub signature_name : String → String
signature_name name = name +++ ".sig"

abbrev pub file_of : Option Directory → String → Option Bytes
file_of none name = none
file_of (some directory) name = directory name

abbrev pub release_file : Disk → String → String → Option Bytes
release_file d release name = file_of (d.releases release) name

abbrev pub then_check :
    Result (Unit {0}) Failure → Result (Unit {0}) Failure → Result (Unit {0}) Failure
then_check (ok _) rest = rest
then_check (err e) rest = err e

pub then_check-ok :
    (first rest : Result (Unit {0}) Failure)
    → then_check first rest ≡ ok tt
    → (first ≡ ok tt) × (rest ≡ ok tt)
then_check-ok (ok u) rest e = (refl, e)
then_check-ok (err x) rest e = absurd (ground arith)
