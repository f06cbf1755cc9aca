-- ===== src/Daemon/Revisions.antt =====
-- crates/aursmithd/src/packages.rs: a new snapshot becomes a revision. The decoding of base64, SHA-256,
-- the lossy UTF-8 text and the digest of a snapshot's tree are parameters.
use aursmith.Base.{
  ℕ, String, List, [], ◌∷◌, ◌++◌, map, Bool, true, ◌&&◌, ◌||◌, Option, none, some, ◌==◌, string_ord,
  nat_ord, any, keep, foldl, newest, is_some, ◌+++◌, if◌then◌else◌,
}
use aursmith.Core.Scan.{ScanFile, is_block, scan_aur_wrapper}
use aursmith.Core.Review.{approve, reject}
use aursmith.Daemon.State.{
  AppState, Package, Revision, RevisionState, pending_review, superseded, Review, scan, reuse,
  Snapshot, SnapshotFile, ResolvedDependency, Bytes,
}
use aursmith.Daemon.State
use aursmith.Daemon.Table.{update_where}
use aursmith.Daemon.Closure.{is_approved}
use aursmith.Daemon.Review.{is_pending, is_manual, add_review}

-- what the code takes from the libraries
pub record Decoders : Type 0 where
  pub base64 : String → Option Bytes
  pub digest : Bytes → String
  pub utf8 : Bytes → String
  pub tree_sha256 : Snapshot → String

abbrev pub bytes_of : Option Bytes → Bytes
bytes_of none = []
bytes_of (some bytes) = bytes

abbrev pub scan_file : Decoders → SnapshotFile → ScanFile
scan_file d file = record {
  path = file.path;
  declared_sha256 = file.sha256;
  binary = file.binary;
  bytes = bytes_of (d.base64 file.content_base64);
}

abbrev pub scan_files : Decoders → Snapshot → List ScanFile
scan_files d snapshot = map (scan_file d) snapshot.files

-- `COALESCE(vcs_commit, '')`
abbrev pub or_empty : Option String → String
or_empty none = ""
or_empty (some commit) = commit

abbrev pub is_same : Snapshot → Revision → Bool
is_same snapshot r =
    r.package_base == snapshot.package_base
    && r.aur_commit == snapshot.aur_commit
    && or_empty r.vcs_commit == or_empty snapshot.vcs_commit

abbrev pub new_package : String → ℕ → Package
new_package base now = record {
  package_base = base;
  version = none;
  description = none;
  maintainer = none;
  out_of_date = none;
  last_modified = none;
  outputs = [];
  allow_check = true;
  next_check_at = now;
  last_checked_at = none;
  sync_failures = 0;
  sync_error = none;
}

-- `INSERT OR IGNORE`
unfoldable pub ensure_package : String → ℕ → AppState → AppState
ensure_package base now s =
    if any (λ p. p.package_base == base) s.packages
    then s
    else record s { packages = s.packages ++ new_package base now ∷ [] }

abbrev pub newest_where : (Revision → Bool) → AppState → Option Revision
newest_where test s = newest (λ r. r.created_at) (keep test s.revisions)

abbrev pub baseline : Snapshot → AppState → Option Revision
baseline snapshot =
    newest_where (λ r. r.package_base == snapshot.package_base && is_approved r.state)

abbrev pub reusable : Decoders → Snapshot → AppState → Option Revision
reusable d snapshot = newest_where (λ r.
    r.package_base == snapshot.package_base
    && is_approved r.state
    && r.tree_sha256 == d.tree_sha256 snapshot)

unfoldable pub is_blocked : Decoders → Snapshot → Bool
unfolding scan_aur_wrapper
is_blocked d snapshot =
    any (λ f. is_block f.severity) (scan_aur_wrapper d.digest d.utf8 (scan_files d snapshot))

abbrev pub first_state : Bool → Bool → RevisionState
first_state blocked reused =
    if blocked
    then State.RevisionState.rejected
    else if reused
    then State.RevisionState.approved
    else pending_review

abbrev pub superseded_row : Revision → Revision
superseded_row r = record r { state = superseded }

abbrev pub supersede : String → AppState → AppState
supersede base s = record s {
  revisions =
      update_where (λ r. r.package_base == base && (is_pending r.state || is_manual r.state))
        superseded_row s.revisions;
}

abbrev pub id_or_null : Option Revision → Option String
id_or_null none = none
id_or_null (some r) = some r.id

abbrev pub add_revision : Revision → AppState → AppState
add_revision r s = record s { revisions = s.revisions ++ r ∷ [] }

abbrev pub new_revision :
    Decoders
    → ℕ
    → String
    → Snapshot
    → List ResolvedDependency
    → Option Revision
    → RevisionState
    → Revision
new_revision d now id snapshot dependencies base state = record {
  id = id;
  package_base = snapshot.package_base;
  aur_commit = snapshot.aur_commit;
  vcs_commit = snapshot.vcs_commit;
  version = snapshot.info.version;
  tree_sha256 = d.tree_sha256 snapshot;
  snapshot = snapshot;
  dependencies = dependencies;
  baseline_revision_id = id_or_null base;
  state = state;
  created_at = now;
  decided_at = if is_pending state then none else some now;
}

abbrev pub scan_review : ℕ → String → String → Bool → Review
scan_review now uuid id blocked = record {
  id = uuid;
  revision_id = id;
  kind = scan;
  role = none;
  model = none;
  verdict = if blocked then reject else approve;
  summary = if blocked then "确定性扫描发现 Block 级问题，直接拒绝" else "确定性扫描未发现 Block 级问题";
  created_at = now;
}

abbrev pub reuse_review : ℕ → String → String → Revision → Review
reuse_review now uuid id source_revision = record {
  id = uuid;
  revision_id = id;
  kind = reuse;
  role = none;
  model = none;
  verdict = approve;
  summary = "AUR 包装层与已批准 revision " +++ source_revision.id +++ " 逐字节相同，复用其审查结论";
  created_at = now;
}

abbrev pub note_reuse : ℕ → String → String → Bool → Option Revision → AppState → AppState
note_reuse now uuid id blocked none s = s
note_reuse now uuid id blocked (some r) s =
    if blocked then s else add_review (reuse_review now uuid id r) s

abbrev pub ensure_target : ℕ → AppState → ResolvedDependency → AppState
ensure_target now s dependency = elim dependency.target [
  | none ↦ s
  | some target ↦ ensure_package target now s
]

abbrev pub or_version : Option String → String → Option String
or_version none version = some version
or_version (some old) version = some old

abbrev pub package_row : Snapshot → Package → Package
package_row snapshot p = record p {
  version = or_version p.version snapshot.info.version;
  outputs = snapshot.info.outputs;
}

abbrev pub update_package : Snapshot → AppState → AppState
update_package snapshot s = record s {
  packages =
      update_where (λ p. p.package_base == snapshot.package_base) (package_row snapshot) s.packages;
}

-- The transaction, where the snapshot is new; `uuid` gives the identifiers of the revision and of the
-- two reviews.
unfoldable pub store_revision :
    Decoders
    → ℕ
    → (ℕ → String)
    → Snapshot
    → List ResolvedDependency
    → AppState
    → AppState × (String × RevisionState)
unfolding is_blocked ensure_package
store_revision d now uuid snapshot dependencies s0 =
    let s = ensure_package snapshot.package_base now s0 in
    let blocked = is_blocked d snapshot in
    let old = reusable d snapshot s in
    let state = first_state blocked (is_some old) in
    let id = uuid 0 in
    let row = new_revision d now id snapshot dependencies (baseline snapshot s) state in
    let inserted = add_revision row (supersede snapshot.package_base s) in
    let scanned = add_review (scan_review now (uuid 1) id blocked) inserted in
    let noted = note_reuse now (uuid 2) id blocked old scanned in
    let ensured = foldl (ensure_target now) noted dependencies in
    (update_package snapshot ensured, (id, state))

unfoldable pub insert_revision :
    Decoders
    → ℕ
    → (ℕ → String)
    → Snapshot
    → List ResolvedDependency
    → AppState
    → AppState × Option (String × RevisionState)
unfolding store_revision
insert_revision d now uuid snapshot dependencies s =
    if any (is_same snapshot) s.revisions
    then (s, none)
    else let (t, stored) = store_revision d now uuid snapshot dependencies s in (t, some stored)
