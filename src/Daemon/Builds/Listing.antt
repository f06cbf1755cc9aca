-- ===== src/Daemon/Builds/Listing.antt =====
-- crates/aursmithd/src/builds.rs: the builds as an administrator sees them.
use aursmith.Base.{
  ℕ, String, len, List, map, Bool, true, false, not, Option, none, some, Result, ok, err, ◌==◌,
  nat_ord, string_ord, Ordering, keep, sort_by, find, if◌then◌else◌,
}
use aursmith.Daemon.State.{AppState, Build, BuildState, Revision}
use aursmith.Daemon.Handler.{Handler, ApiResult, not_found_error, reads, reads_result}
use aursmith.Daemon.Closure.{Closure, compute_closure, closure_run}
use aursmith.Daemon.Builds.Usable.{dependency_builds, is_queued, take, Waiting}
use aursmith.Daemon.Builds.Lease.{join_rows}

pub record BuildItem : Type 0 where
  pub build : Build
  pub version : String
  pub aur_commit : String
  pub vcs_commit : Option String
  pub has_log : Bool
  pub waiting_reason : Option (Option Waiting)

abbrev has_text : Option String → Bool
has_text none = false
has_text (some log) = not (len log == 0)

-- a row of the join with the revisions
abbrev pub item_of : Build × Revision → BuildItem
item_of (b, r) = record {
  build = b;
  version = r.version;
  aur_commit = r.aur_commit;
  vcs_commit = r.vcs_commit;
  has_log = has_text b.log;
  waiting_reason = none;
}

abbrev pub joined_items : AppState → List Build → List BuildItem
joined_items s builds = map item_of (join_rows s builds)

abbrev pub is_of : Option String → Build → Bool
is_of none b = true
is_of (some base) b = b.package_base == base

abbrev pub newest_first : BuildItem → BuildItem → Ordering
newest_first a b = nat_ord.cmp b.build.created_at a.build.created_at

unfoldable pub recent_builds : AppState → Option String → ℕ → List BuildItem
recent_builds s base limit =
    take limit (sort_by newest_first (joined_items s (keep (is_of base) s.builds)))

-- `.err()`
abbrev pub error_of : {A E : Type 0} → Result A E → Option E
error_of (ok a) = none
error_of (err e) = some e

abbrev pub with_reason : AppState → Closure → BuildItem → BuildItem
with_reason s c item =
    if is_queued item.build.state
    then record item {
      waiting_reason = some (error_of (dependency_builds s c item.build.package_base));
    }
    else item

unfoldable pub list : Handler (List BuildItem)
unfolding recent_builds dependency_builds closure_run
list = reads (λ s. map (with_reason s (compute_closure s)) (recent_builds s none 200))

pub record BuildLog : Type 0 where
  pub build_id : String
  pub state : BuildState
  pub error_code : Option String
  pub log : String

abbrev log_or_empty : Option String → String
log_or_empty none = ""
log_or_empty (some text) = text

abbrev pub log_of : Option Build → ApiResult BuildLog
log_of none = err not_found_error
log_of (some b) = ok (record {
  build_id = b.id;
  state = b.state;
  error_code = b.error_code;
  log = log_or_empty b.log;
})

unfoldable pub log : String → Handler BuildLog
log build_id = reads_result (λ s. log_of (find (λ b. b.id == build_id) s.builds))
