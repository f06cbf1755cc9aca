-- ===== src/Daemon/Builds/Usable.antt =====
-- crates/aursmithd/src/builds.rs: which build of a package can be used, and whether the builds that a
-- package depends on are there.
use aursmith.Base.{
  ℕ, zero, suc, String, List, [], ◌∷◌, Bool, true, false, not, ◌&&◌, ◌||◌, Option, none, some,
  Result, ok, err, ◌==◌, nat_ord, string_ord, pair_ord, pair_cmp, Ordering, lookup, keep, is_empty,
  all, any, find, newest, sort_by, is_some, if◌then◌else◌,
}
use aursmith.Core.Graph.{DependencyGraph, closure}
use aursmith.Core.Protocol.{ArtifactRecord}
use aursmith.Daemon.State.{
  AppState, Directory, Bytes, Build, BuildState, queued, running, uploading, succeeded, Revision,
}
use aursmith.Daemon.Closure.{Closure, is_approved, revisions_of}

abbrev pub file_in : Option Directory → String → Option Bytes
file_in none file = none
file_in (some directory) file = directory file

-- `artifact_dir(state, build_id).join(file)`
abbrev pub artifact_file : AppState → String → String → Option Bytes
artifact_file s build_id file = file_in (s.artifacts build_id) file

abbrev pub is_queued : BuildState → Bool
is_queued queued = true
is_queued _ = false

abbrev pub is_running : BuildState → Bool
is_running running = true
is_running _ = false

abbrev pub is_uploading : BuildState → Bool
is_uploading uploading = true
is_uploading _ = false

abbrev pub is_succeeded : BuildState → Bool
is_succeeded succeeded = true
is_succeeded _ = false

-- `state IN ('queued', 'running', 'uploading')`
abbrev pub is_unfinished : BuildState → Bool
is_unfinished state = is_queued state || is_running state || is_uploading state

abbrev pub id_of : Option Revision → Option String
id_of none = none
id_of (some r) = some r.id

-- the newest approved revision of a package
abbrev pub latest_approved : AppState → String → Option Revision
latest_approved s base = newest (λ r. r.created_at) (revisions_of is_approved s base)

abbrev pub is_id : Option String → String → Bool
is_id none id = false
is_id (some a) id = a == id

abbrev pub number : Bool → ℕ
number true = 1
number false = 0

abbrev pub time_or_null : Option ℕ → ℕ
time_or_null none = 0
time_or_null (some t) = suc t

-- `ORDER BY current DESC, finished_at DESC`; NULL is the least value
abbrev pub better : AppState → String → Build → Build → Ordering
better s base a b =
    let rank : Build → ℕ × ℕ = λ x.
      (number (is_id (id_of (latest_approved s base)) x.revision_id), time_or_null x.finished_at) in
    pair_cmp (rank b) (rank a)

abbrev pub take : {A : Type 0} → ℕ → List A → List A
take zero xs = []
take (suc n) [] = []
take (suc n) (x ∷ xs) = x ∷ take n xs

-- whether the build has artifacts, and their files are still there
unfoldable pub has_files : AppState → Build → Bool
has_files s b =
    not (is_empty b.artifacts)
    && all (λ artifact. is_some (artifact_file s b.id artifact.file)) b.artifacts

abbrev pub found_build : Option Build → Option (String × List ArtifactRecord)
found_build none = none
found_build (some b) = some (b.id, b.artifacts)

unfoldable pub usable_build : AppState → String → Option (String × List ArtifactRecord)
unfolding has_files
usable_build s base =
    let rows = take 5 (
      sort_by (better s base)
        (keep (λ b. b.package_base == base && is_succeeded b.state) s.builds)) in
    found_build (find (has_files s) rows)

pub data Waiting : Type 0 where
  for_provider : List String → Waiting
  for_dependency : String → Waiting

abbrev pub Dependencies : Type 0
Dependencies = List (String × List ArtifactRecord)

abbrev pub add_build :
    String
    → Option (String × List ArtifactRecord)
    → Result Dependencies Waiting
    → Result Dependencies Waiting
add_build dependency none rest = err (for_dependency dependency)
add_build dependency (some build) (err waiting) = err waiting
add_build dependency (some build) (ok builds) = ok (build ∷ builds)

-- the loop over the closure of the package
unfoldable pub collect_builds : AppState → String → List String → Result Dependencies Waiting
collect_builds s base [] = ok []
collect_builds s base (dependency ∷ rest) =
    let others = collect_builds s base rest in
    if dependency == base then others else add_build dependency (usable_build s dependency) others

abbrev pub members_of : Option (List String) → List String
members_of none = []
members_of (some members) = members

abbrev pub closure_of : DependencyGraph → String → List String
closure_of g base = members_of (closure g (base ∷ []))

abbrev pub or_waiting :
    Option (List String) → Result Dependencies Waiting → Result Dependencies Waiting
or_waiting none builds = builds
or_waiting (some unresolved) builds = err (for_provider unresolved)

unfoldable pub dependency_builds : AppState → Closure → String → Result Dependencies Waiting
unfolding collect_builds usable_build
dependency_builds s c base =
    or_waiting (lookup base c.unresolved) (collect_builds s base (closure_of c.graph base))

abbrev pub is_ready : Result Dependencies Waiting → Bool
is_ready (ok builds) = true
is_ready (err waiting) = false

unfoldable pub has_active_build : AppState → Closure → String → Bool
unfolding dependency_builds
has_active_build s c base =
    any (λ b. not (is_queued b.state) || is_ready (dependency_builds s c base))
      (keep (λ b. b.package_base == base && is_unfinished b.state) s.builds)
