-- ===== src/Daemon/Builds/Failure.antt =====
-- crates/aursmithd/src/builds.rs: what a failure, or a lease that ran out, does to a build.
use aursmith.Base.{
  ℕ, ◌+◌, String, List, [], ◌∷◌, Bool, true, false, ◌&&◌, ◌||◌, Option, none, some, ◌==◌, nat_ord,
  string_ord, pair_ord, keep, leb, ltb, if◌then◌else◌,
}
use aursmith.Core.Protocol.{ErrorClass, transient, classify_error_code, maximum_transient_retries}
use aursmith.Daemon.State.{AppState, Build, BuildState, queued, failed, wake}
use aursmith.Daemon.Table.{update_where}
use aursmith.Daemon.Builds.Usable.{is_running, is_uploading}

-- `COALESCE(?, log)`
abbrev pub coalesce : Option String → Option String → Option String
coalesce none old = old
coalesce (some new) old = some new

abbrev pub is_transient : ErrorClass → Bool
is_transient transient = true
is_transient _ = false

abbrev pub retries : String → ℕ → Bool
retries code attempt =
    is_transient (classify_error_code code) && leb attempt maximum_transient_retries

abbrev pub retry_row : String → Option String → Build → Build
retry_row code log b = record b {
  state = queued;
  attempt = b.attempt + 1;
  builder_id = none;
  lease_expires_at = none;
  error_code = some code;
  error_class = some (classify_error_code code);
  log = coalesce log b.log;
  artifacts = [];
}

abbrev pub fail_row : ℕ → String → Option String → Build → Build
fail_row now code log b = record b {
  state = failed;
  lease_expires_at = none;
  error_code = some code;
  error_class = some (classify_error_code code);
  log = coalesce log b.log;
  finished_at = some now;
}

abbrev pub remove_directory : String → AppState → AppState
remove_directory id s = record s {
  artifacts = λ other. if other == id then none else s.artifacts other;
}

unfoldable pub fail_build :
    ℕ → String → ℕ → String → Option String → AppState → AppState × BuildState
fail_build now id attempt code log s =
    let retry = retries code attempt in
    let row = λ (b : Build). if retry then retry_row code log b else fail_row now code log b in
    let updated = record s { builds = update_where (λ b. b.id == id) row s.builds } in
    (wake (remove_directory id updated), if retry then queued else failed)

-- `lease_expires_at < ?`, which no NULL meets
abbrev pub is_expired : ℕ → Build → Bool
is_expired now b =
    (is_running b.state || is_uploading b.state)
    && elim b.lease_expires_at [ none ↦ false | some t ↦ ltb t now ]

unfoldable pub fail_expired : ℕ → List Build → AppState → AppState
unfolding fail_build
fail_expired now [] s = s
fail_expired now (b ∷ expired) s =
    fail_expired now expired (fail_build now b.id b.attempt "LEASE_EXPIRED" none s).0

unfoldable pub expire_leases : ℕ → AppState → AppState
unfolding fail_expired
expire_leases now s = fail_expired now (keep (is_expired now) s.builds) s
