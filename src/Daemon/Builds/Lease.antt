-- ===== src/Daemon/Builds/Lease.antt =====
-- crates/aursmithd/src/builds.rs: the builder asks for work. One request reads the clock once.
use aursmith.Base.{
  ℕ, ◌+◌, String, len, List, [], ◌∷◌, map, Bool, true, false, not, ◌&&◌, ◌||◌, Option, none, some,
  ok, err, ◌==◌, nat_ord, string_ord, Ordering, find, sort_by, keep, leb, ltb, all_chars, is_one_of,
  is_ascii_alphanumeric, if◌then◌else◌,
}
use aursmith.Core.Protocol.{LeaseRequest, BuildSpec, InputFile, DependencyArtifact, ArtifactRecord}
use aursmith.Daemon.State.{AppState, Build, Revision, SnapshotFile, running}
use aursmith.Daemon.Handler.{Handler, bad_request_error, check, modify, reads, ◌>>=◌, ◌>>◌}
use aursmith.Daemon.Auth.{require_builder}
use aursmith.Daemon.Closure.{Closure, compute_closure}
use aursmith.Daemon.Table.{update_where, affected}
use aursmith.Daemon.Builds.Usable.{is_queued, Dependencies, dependency_builds}
use aursmith.Daemon.Builds.Failure.{expire_leases}
use mathlib.Core.List.{flat_map}

abbrev pub valid_builder_id : String → Bool
valid_builder_id id =
    not (id == "")
    && leb (len id) 64
    && all_chars (λ c. is_ascii_alphanumeric c || is_one_of "-_." c) id

abbrev pub mark_builder_seen : ℕ → String → AppState → AppState
mark_builder_seen now id s = record s { builder_seen = some (id, now) }

-- `clamp(600, 172_800)`
abbrev pub clamp_lease : ℕ → ℕ
clamp_lease seconds =
    if ltb seconds 600 then 600 else if ltb 172800 seconds then 172800 else seconds

-- the revision of a build, where the join finds it
abbrev pub revision_of : AppState → Build → Option Revision
revision_of s b = find (λ r. r.id == b.revision_id) s.revisions

abbrev pub join_rows : AppState → List Build → List (Build × Revision)
join_rows s [] = []
join_rows s (b ∷ rows) =
    let rest = join_rows s rows in elim (revision_of s b) [ none ↦ rest | some r ↦ (b, r) ∷ rest ]

abbrev by_creation : Build × Revision → Build × Revision → Ordering
by_creation a b = nat_ord.cmp a.0.created_at b.0.created_at

abbrev pub queued_rows : AppState → List (Build × Revision)
queued_rows s = sort_by by_creation (join_rows s (keep (λ b. is_queued b.state) s.builds))

abbrev input_file : SnapshotFile → InputFile
input_file f = record {
  path = f.path;
  sha256 = f.sha256;
  size = f.size;
  content_base64 = f.content_base64;
}

abbrev pub artifacts_of : String × List ArtifactRecord → List DependencyArtifact
artifacts_of (id, artifacts) =
    map
      (λ artifact. record {
        build_id = id;
        file = artifact.file;
        sha256 = artifact.sha256;
        size = artifact.size;
      })
      artifacts

abbrev pub dependency_artifacts : Dependencies → List DependencyArtifact
dependency_artifacts dependencies = flat_map artifacts_of dependencies

abbrev pub spec_of : Build → Revision → Dependencies → ℕ → BuildSpec
spec_of b r dependencies expires = record {
  build_id = b.id;
  attempt = b.attempt;
  package_base = b.package_base;
  revision_id = r.id;
  aur_commit = r.aur_commit;
  vcs_commit = r.vcs_commit;
  tree_sha256 = r.tree_sha256;
  expected_outputs = r.snapshot.info.outputs;
  allow_check = b.allow_check;
  files = map input_file r.snapshot.files;
  dependencies = dependency_artifacts dependencies;
  lease_expires_at = expires;
}

abbrev pub claims : String → Build → Bool
claims id b = b.id == id && is_queued b.state

abbrev pub claim_row : ℕ → String → ℕ → Dependencies → Build → Build
claim_row now builder expires dependencies b = record b {
  state = running;
  builder_id = some builder;
  lease_expires_at = some expires;
  started_at = some now;
  dep_build_ids = map (λ d. d.0) dependencies;
  error_code = none;
  error_class = none;
}

-- the loop over the queued builds; the closure is that of the time before the loop
unfoldable pub lease_loop :
    ℕ → LeaseRequest → Closure → List (Build × Revision) → AppState → Option BuildSpec × AppState
lease_loop now request c [] s = (none, s)
lease_loop now request c ((b, r) ∷ rows) s = elim (dependency_builds s c b.package_base) [
  | err waiting ↦ lease_loop now request c rows s
  | ok dependencies ↦
      let expires = now + clamp_lease request.lease_seconds in
      let claimed = record s {
        builds =
            update_where (claims b.id) (claim_row now request.builder_id expires dependencies)
              s.builds;
      } in
      elim (affected (claims b.id) s.builds == 1) [
        | false ↦ lease_loop now request c rows claimed
        | true ↦ (some (spec_of b r dependencies expires), claimed)
      ]
]

abbrev run_lease : ℕ → LeaseRequest → Closure → List (Build × Revision) → Handler (Option BuildSpec)
run_lease now request c rows s = let (spec, t) = lease_loop now request c rows s in (ok spec, t)

unfoldable pub lease :
    (String → String) → ℕ → Option String → LeaseRequest → Handler (Option BuildSpec)
unfolding lease_loop expire_leases require_builder
lease sha256 now authorization request = do
  require_builder sha256 authorization
  check (valid_builder_id request.builder_id) (bad_request_error "INVALID_BUILDER_ID")
  modify (mark_builder_seen now request.builder_id)
  modify (expire_leases now)
  c ← reads compute_closure
  rows ← reads queued_rows
  run_lease now request c rows
