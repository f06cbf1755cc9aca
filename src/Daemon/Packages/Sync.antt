-- ===== src/Daemon/Packages/Sync.antt =====
-- crates/aursmithd/src/packages.rs: the packages of the closure are checked against the AUR.
pub mod Keeping
pub mod Rows
use aursmith.Base.{
  ℕ, ◌+◌, ◌*◌, String, ◌+++◌, List, [], ◌∷◌, Bool, true, false, not, ◌&&◌, Option, none, some,
  Result, ok, err, ◌==◌, nat_ord, string_ord, Ordering, contains, any, find, foldl, keep, newest,
  sort_by, leb, take_chars, ◌>>=◌, is_some, if◌then◌else◌,
}
use aursmith.Core.Srcinfo.{git_vcs_source}
use aursmith.Daemon.State.{
  AppState, Package, Revision, RevisionState, Snapshot, ResolvedDependency, wake,
}
use aursmith.Daemon.Table.{update_where}
use aursmith.Daemon.Closure.{compute_closure, closure_run}
use aursmith.Daemon.Revisions.{Decoders, insert_revision, is_same}
use aursmith.Daemon.Packages.Aur.{AurClient, AurPackage}
use aursmith.Daemon.Packages.Resolve.{resolve_dependencies}
use aursmith.Daemon.Packages.Clock.{next_scheduled_check, max, min}

-- what the code takes from elsewhere: the client, the decoders of snapshots, and the number that spreads
-- the checks
pub record Sources : Type 0 where
  pub client : AurClient
  pub decoders : Decoders
  pub prefix : String → ℕ

abbrev pub Created : Type 0
Created = Option (String × RevisionState)

-- a result with the state, where an error is its message
abbrev pub SyncResult : Type 0
SyncResult = Result Created String × AppState

abbrev pub wake_if_some : AppState × Created → SyncResult
wake_if_some (s, none) = (ok none, s)
wake_if_some (s, some created) = (ok (some created), wake s)

abbrev pub ingest_resolved :
    Sources
    → ℕ
    → (ℕ → String)
    → Snapshot
    → Result (List ResolvedDependency) String
    → AppState
    → SyncResult
ingest_resolved sources now uuid snapshot (err e) s = (err e, s)
ingest_resolved sources now uuid snapshot (ok dependencies) s =
    wake_if_some (insert_revision sources.decoders now uuid snapshot dependencies s)

abbrev pub ingest_snapshot :
    Sources → ℕ → (ℕ → String) → Result Snapshot String → AppState → SyncResult
ingest_snapshot sources now uuid (err e) s = (err e, s)
ingest_snapshot sources now uuid (ok snapshot) s =
    let resolved = resolve_dependencies sources.client snapshot.info in
    if any (is_same snapshot) s.revisions
    then (ok none, s)
    else ingest_resolved sources now uuid snapshot resolved s

unfoldable pub ingest : Sources → ℕ → (ℕ → String) → String → AppState → SyncResult
unfolding resolve_dependencies insert_revision
ingest sources now uuid base s = ingest_snapshot sources now uuid (sources.client.snapshot base) s

abbrev pub checked_row : Sources → ℕ → ℕ → Package → Package
checked_row sources now interval p = record p {
  last_checked_at = some now;
  next_check_at = next_scheduled_check sources.prefix p.package_base now interval;
  sync_failures = 0;
  sync_error = none;
}

-- in minutes
abbrev pub retry_delay : ℕ → ℕ → ℕ
retry_delay failures interval = min (30 * (failures + 1)) (max interval 30)

abbrev pub failed_row : ℕ → ℕ → String → Package → Package
failed_row now delay message p = record p {
  last_checked_at = some now;
  next_check_at = now + delay * 60;
  sync_failures = p.sync_failures + 1;
  sync_error = some (take_chars 2000 message);
}

abbrev failures_of : Option Package → ℕ
failures_of none = 0
failures_of (some p) = p.sync_failures

abbrev pub is_base : String → Package → Bool
is_base base p = p.package_base == base

abbrev pub failures : AppState → String → ℕ
failures s base = failures_of (find (is_base base) s.packages)

-- the error of a result, if it has one
abbrev pub message_of : {A : Type 0} → Result A String → Option String
message_of (ok a) = none
message_of (err e) = some e

unfoldable pub record_sync : Sources → ℕ → String → Option String → AppState → AppState
unfolding next_scheduled_check
record_sync sources now base none s = record s {
  packages =
      update_where (is_base base) (checked_row sources now s.config.update_interval_minutes)
        s.packages;
}
record_sync sources now base (some message) s = record s {
  packages =
      update_where (is_base base)
        (failed_row now (retry_delay (failures s base) s.config.update_interval_minutes) message)
        s.packages;
}

abbrev pub cached_row : AurPackage → Package → Package
cached_row found p = record p {
  version = some found.version;
  description = found.description;
  maintainer = found.maintainer;
  out_of_date = found.out_of_date;
  last_modified = some found.last_modified;
}

abbrev pub update_cache : AurPackage → AppState → AppState
update_cache found s = record s {
  packages = update_where (is_base found.package_base) (cached_row found) s.packages;
}

-- the name that the AUR is asked for
abbrev pub lookup_name : String → List String → String
lookup_name base [] = base
lookup_name base (output ∷ outputs) = output

abbrev pub same_time : Option ℕ → ℕ → Bool
same_time none t = false
same_time (some u) t = u == t

abbrev pub same_commit : Option String → Option String → Bool
same_commit none none = true
same_commit (some a) (some b) = a == b
same_commit _ _ = false

-- the newest revision of the package, of any state
abbrev pub latest_revision : AppState → String → Option Revision
latest_revision s base = newest (λ r. r.created_at) (keep (λ r. r.package_base == base) s.revisions)

abbrev pub has_advanced : AurClient → Revision → Option String → Result Bool String
has_advanced client r none = ok false
has_advanced client r (some url) = do
  commit ← client.vcs_commit r.snapshot.info.sources
  ok (not (same_commit commit r.vcs_commit))

-- whether a new snapshot is wanted
unfoldable pub has_changed :
    AurClient → Option ℕ → AurPackage → Option Revision → Result Bool String
unfolding git_vcs_source
has_changed client modified found none = ok true
has_changed client modified found (some r) =
    let advanced = has_advanced client r (git_vcs_source r.snapshot.info.sources) in
    if not (same_time modified found.last_modified) then ok true else advanced

-- the error of sqlx where `fetch_one` finds no row
abbrev pub row_not_found : String
row_not_found = "no rows returned by a query that expected to return at least one row"

abbrev pub sync_changed :
    Sources → ℕ → (ℕ → String) → String → Result Bool String → AppState → SyncResult
sync_changed sources now uuid base (err e) s = (err e, s)
sync_changed sources now uuid base (ok changed) s =
    let ingested = ingest sources now uuid base s in if changed then ingested else (ok none, s)

abbrev pub sync_found :
    Sources → ℕ → (ℕ → String) → String → Option ℕ → Option AurPackage → AppState → SyncResult
sync_found sources now uuid base modified none s = (err ("AUR 中已不存在 pkgbase " +++ base), s)
sync_found sources now uuid base modified (some found) s =
    let cached = update_cache found s in
    sync_changed sources now uuid base
      (has_changed sources.client modified found (latest_revision cached base)) cached

abbrev pub sync_answer :
    Sources
    → ℕ
    → (ℕ → String)
    → String
    → Option ℕ
    → Result (List AurPackage) String
    → AppState
    → SyncResult
sync_answer sources now uuid base modified (err e) s = (err e, s)
sync_answer sources now uuid base modified (ok packages) s =
    sync_found sources now uuid base modified (find (λ p. p.package_base == base) packages) s

abbrev pub sync_row : Sources → ℕ → (ℕ → String) → String → Option Package → AppState → SyncResult
sync_row sources now uuid base none s = (err row_not_found, s)
sync_row sources now uuid base (some p) s =
    sync_answer sources now uuid base p.last_modified
      (sources.client.info (lookup_name base p.outputs ∷ [])) s

unfoldable pub sync_package : Sources → ℕ → (ℕ → String) → String → AppState → SyncResult
unfolding ingest has_changed
sync_package sources now uuid base s =
    sync_row sources now uuid base (find (is_base base) s.packages) s

-- `sync_package`, with its result recorded
abbrev pub recorded : Sources → ℕ → String → SyncResult → AppState
recorded sources now base (result, s) = record_sync sources now base (message_of result) s

abbrev pub sync_and_record : Sources → ℕ → (ℕ → String) → AppState → String → AppState
sync_and_record sources now uuid s base =
    recorded sources now base (sync_package sources now uuid base s)

abbrev pub by_next_check : Package → Package → Ordering
by_next_check a b = nat_ord.cmp a.next_check_at b.next_check_at

-- the members of the closure whose check is due
unfoldable pub due_packages : ℕ → AppState → List Package
unfolding closure_run
due_packages now s =
    keep (λ p. contains (compute_closure s).members p.package_base)
      (sort_by by_next_check (keep (λ p. leb p.next_check_at now) s.packages))

-- `uuid` gives the identifiers that the check of a package draws; all packages are checked at one time.
unfoldable pub sync_rows : Sources → ℕ → (String → ℕ → String) → List Package → AppState → AppState
unfolding sync_package record_sync
sync_rows sources now uuid [] s = s
sync_rows sources now uuid (p ∷ due) s =
    sync_rows sources now uuid due
      (sync_and_record sources now (uuid p.package_base) s p.package_base)

unfoldable pub sync_due : Sources → ℕ → (String → ℕ → String) → AppState → AppState
unfolding due_packages sync_rows
sync_due sources now uuid s = sync_rows sources now uuid (due_packages now s) s
