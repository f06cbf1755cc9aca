-- ===== src/Daemon/Builds/Schedule.antt =====
-- crates/aursmithd/src/builds.rs: the schedule. Queued builds that are stale or not needed fail, and
-- each member of the closure has a build of its newest approved revision.
use aursmith.Base.{
  ℕ, suc, String, List, [], ◌∷◌, ◌++◌, Bool, not, ◌&&◌, Option, none, some, ◌==◌, nat_ord,
  string_ord, pair_ord, contains, keep, any, find, if◌then◌else◌,
}
use aursmith.Core.Protocol.{deterministic}
use aursmith.Daemon.State.{AppState, Build, queued, failed, BuildReason, Revision}
use aursmith.Daemon.Table.{update_where}
use aursmith.Daemon.Closure.{Closure}
use aursmith.Daemon.Builds.Usable.{is_queued, is_id, id_of, latest_approved}

-- why a queued build is cancelled
abbrev pub cancel_reason : AppState → Closure → Build → Option String
cancel_reason s c b =
    if not (contains c.members b.package_base)
    then some "NOT_REQUIRED"
    else if not (is_id (id_of (latest_approved s b.package_base)) b.revision_id)
    then some "SUPERSEDED"
    else none

abbrev pub cancel_row : ℕ → String → Build → Build
cancel_row now code b = record b {
  state = failed;
  error_code = some code;
  error_class = some deterministic;
  finished_at = some now;
}

abbrev pub cancel : ℕ → Build → Option String → AppState → AppState
cancel now b none s = s
cancel now b (some code) s = record s {
  builds = update_where (λ x. x.id == b.id && is_queued x.state) (cancel_row now code) s.builds;
}

-- the loop over the queued builds
unfoldable pub cancel_stale : ℕ → Closure → List Build → AppState → AppState
cancel_stale now c [] s = s
cancel_stale now c (b ∷ stale) s = cancel_stale now c stale (cancel now b (cancel_reason s c b) s)

abbrev pub new_build : ℕ → String → String → String → Bool → BuildReason → Build
new_build now id base revision_id allow_check reason = record {
  id = id;
  revision_id = revision_id;
  package_base = base;
  state = queued;
  attempt = 1;
  reason = reason;
  allow_check = allow_check;
  builder_id = none;
  lease_expires_at = none;
  dep_build_ids = [];
  artifacts = [];
  error_code = none;
  error_class = none;
  log = none;
  created_at = now;
  started_at = none;
  finished_at = none;
}

unfoldable pub insert_build :
    ℕ → String → String → String → Bool → BuildReason → AppState → AppState
insert_build now id base revision_id allow_check reason s = record s {
  builds = s.builds ++ new_build now id base revision_id allow_check reason ∷ [];
}

-- the newest approved revision joined to its package's row, with the package's `allow_check`
abbrev pub approved_with_policy : AppState → String → Option (Revision × Bool)
approved_with_policy s base = elim (latest_approved s base) [
  | none ↦ none
  | some r ↦ elim (find (λ p. p.package_base == base) s.packages) [
    | none ↦ none
    | some p ↦ some (r, p.allow_check)
  ]
]

abbrev pub schedule_revision :
    ℕ → String → String → Option (Revision × Bool) → AppState × ℕ → AppState × ℕ
schedule_revision now id base none (s, created) = (s, created)
schedule_revision now id base (some (r, allow_check)) (s, created) =
    if any (λ b. b.revision_id == r.id) s.builds
    then (s, created)
    else (insert_build now id base r.id allow_check BuildReason.approved s, suc created)

-- the loop over the members; `uuid` gives the identifier drawn for a member's build
unfoldable pub schedule_members : ℕ → (String → String) → List String → AppState × ℕ → AppState × ℕ
unfolding insert_build
schedule_members now uuid [] state = state
schedule_members now uuid (base ∷ members) (s, created) =
    schedule_members now uuid members
      (schedule_revision now (uuid base) base (approved_with_policy s base) (s, created))

unfoldable pub schedule : ℕ → (String → String) → Closure → AppState → AppState × ℕ
unfolding cancel_stale schedule_members
schedule now uuid c s =
    let stale = keep (λ b. is_queued b.state) s.builds in
    schedule_members now uuid c.members (cancel_stale now c stale s, 0)
