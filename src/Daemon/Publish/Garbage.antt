-- ===== src/Daemon/Publish/Garbage.antt =====
-- crates/aursmithd/src/publish.rs: artifacts that nothing can refer to any more are removed.
pub mod Pruned
pub mod Sound
pub mod Same
use aursmith.Base.{
  ℕ, ◌+◌, String, List, [], ◌∷◌, Bool, false, not, ◌&&◌, ◌||◌, Option, none, some, ◌==◌, nat_ord,
  string_ord, Ordering, contains, insert, keep, any, find, sort_by, ◌++◌, if◌then◌else◌,
}
use aursmith.Core.Protocol.{ArtifactRecord}
use aursmith.Daemon.State.{AppState, Build, Publication}
use aursmith.Daemon.Closure.{compute_closure, closure_run}
use aursmith.Daemon.Builds.Usable.{usable_build, is_running, is_uploading, is_succeeded, take}
use aursmith.Daemon.Builds.Failure.{remove_directory}
use aursmith.Daemon.Publish.Plan.{digests_of}

abbrev pub keep_usable : Option (String × List ArtifactRecord) → List String → List String
keep_usable none kept = kept
keep_usable (some build) kept = insert build.0 kept

-- the loop over the members
unfoldable pub usable_ids : AppState → List String → List String
unfolding usable_build
usable_ids s [] = []
usable_ids s (base ∷ members) = keep_usable (usable_build s base) (usable_ids s members)

-- `ORDER BY created_at DESC LIMIT 3`
abbrev pub newer_first : Publication → Publication → Ordering
newer_first a b = nat_ord.cmp b.created_at a.created_at

abbrev pub recent_publications : AppState → List Publication
recent_publications s = take 3 (sort_by newer_first s.publications)

-- the digests of the artifacts of some plans
abbrev pub referenced : List Publication → List String
referenced [] = []
referenced (p ∷ rows) = digests_of p.plan.artifacts ++ referenced rows

abbrev pub is_referenced : List String → Build → Bool
is_referenced digests b = any (λ a. contains digests a.sha256) b.artifacts

-- the loop over the builds that succeeded
abbrev pub add_referenced : List String → List Build → List String → List String
add_referenced digests [] kept = kept
add_referenced digests (b ∷ builds) kept =
    let rest = add_referenced digests builds kept in
    if is_referenced digests b then insert b.id rest else rest

unfoldable pub kept_ids : AppState → List String
unfolding closure_run usable_ids
kept_ids s =
    add_referenced (referenced (recent_publications s)) (keep (λ b. is_succeeded b.state) s.builds)
      (usable_ids s (compute_closure s).members)

abbrev pub is_working : Option Build → Bool
is_working none = false
is_working (some b) = is_running b.state || is_uploading b.state

abbrev pub in_progress : AppState → String → Bool
in_progress s name = is_working (find (λ b. b.id == name) s.builds)

-- the loop over the names that `read_dir` gives
unfoldable pub remove_unreferenced : List String → List String → AppState × ℕ → AppState × ℕ
remove_unreferenced kept [] state = state
remove_unreferenced kept (name ∷ names) (s, removed) = remove_unreferenced kept names (
    if not (contains kept name) && not (in_progress s name)
    then (remove_directory name s, removed + 1)
    else (s, removed))

unfoldable pub collect_garbage : List String → AppState → AppState × ℕ
unfolding kept_ids remove_unreferenced
collect_garbage entries s = remove_unreferenced (kept_ids s) entries (s, 0)
