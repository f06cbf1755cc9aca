-- ===== src/Daemon/Packages/Requests.antt =====
-- crates/aursmithd/src/packages.rs: the requests of an administrator on packages and subscriptions.
pub mod Choices
pub mod Subscriptions
use aursmith.Base.{
  ℕ, String, List, [], ◌∷◌, ◌++◌, Bool, true, false, not, ◌&&◌, Option, none, some, Result, ok, err,
  ◌==◌, string_ord, nat_ord, pair_ord, contains, any, find, keep, put, trim, is_some, if◌then◌else◌,
}
use aursmith.Core.Names.{validate_package_name, NameError}
use aursmith.Daemon.State.{
  AppState, Package, RevisionState, ResolvedDependency, DependencyState, needs_selection, wake,
  Revision,
}
use aursmith.Daemon.Handler.{
  ApiError, ApiResult, Handler, bad_request_error, conflict_error, not_found_error, check, lift,
  modify, pure, raise, reads, reads_result, ◌>>=◌, ◌>>◌,
}
use aursmith.Daemon.Table.{update_where, affected}
use aursmith.Daemon.Closure.{Closure, compute_closure, closure_run, dependency_revision}
use aursmith.Daemon.Revisions.{ensure_package}
use aursmith.Daemon.Packages.Aur.{AurClient, AurPackage}
use aursmith.Daemon.Packages.Sync.{
  Sources, Created, SyncResult, sync_package, record_sync, message_of, update_cache, is_base,
}

-- the reply to a request that checked a package
pub record SyncReport : Type 0 where
  pub package_base : String
  pub revision : Created
  pub sync_error : Option String

abbrev pub created_of : Result Created String → Created
created_of (ok created) = created
created_of (err e) = none

-- the check of a package, and what is recorded of it and reported
abbrev pub report_sync : Sources → ℕ → String → SyncResult → ApiResult SyncReport × AppState
report_sync sources now base (result, s) = (
  ok (record { package_base = base; revision = created_of result; sync_error = message_of result }),
  record_sync sources now base (message_of result) s,
)

abbrev pub checked : Sources → ℕ → (ℕ → String) → String → Handler SyncReport
checked sources now uuid base s =
    report_sync sources now base (sync_package sources now uuid base s)

-- `map_err(…)` to a bad request
abbrev pub or_bad_request : {A E : Type 0} → String → Result A E → ApiResult A
or_bad_request code (ok a) = ok a
or_bad_request code (err e) = err (bad_request_error code)

abbrev pub first_package : List AurPackage → ApiResult AurPackage
first_package [] = err not_found_error
first_package (found ∷ rest) = ok found

abbrev pub due_row : ℕ → Package → Package
due_row now p = record p { next_check_at = now }

-- the update of the next check, and `INSERT OR IGNORE` of the subscription
abbrev pub add_subscription : ℕ → String → AppState → AppState
add_subscription now base s = record s {
  packages = update_where (is_base base) (due_row now) s.packages;
  subscriptions =
      if any (λ other. other == base) s.subscriptions
      then s.subscriptions
      else s.subscriptions ++ base ∷ [];
}

-- the transaction and the cache
abbrev pub subscribe_to : ℕ → AurPackage → AppState → AppState
subscribe_to now found s =
    update_cache found
      (add_subscription now found.package_base (ensure_package found.package_base now s))

-- the parts of `subscribe`, from the last to the first
abbrev pub subscribe_first :
    Sources → ℕ → (ℕ → String) → String → AurPackage → List String → Handler SyncReport
subscribe_first sources now uuid name found official = do
  check (not (contains official name)) (conflict_error "PACKAGE_IN_OFFICIAL_REPOSITORY")
  modify (subscribe_to now found)
  checked sources now uuid found.package_base

abbrev pub subscribe_found : Sources → ℕ → (ℕ → String) → String → AurPackage → Handler SyncReport
subscribe_found sources now uuid name found = do
  official ← lift (or_bad_request "OFFICIAL_LOOKUP_FAILED" (sources.client.official name))
  subscribe_first sources now uuid name found official

abbrev pub subscribe_asked :
    Sources → ℕ → (ℕ → String) → String → List AurPackage → Handler SyncReport
subscribe_asked sources now uuid name packages = do
  found ← lift (first_package packages)
  subscribe_found sources now uuid name found

abbrev pub subscribe_named : Sources → ℕ → (ℕ → String) → String → Handler SyncReport
subscribe_named sources now uuid name = do
  packages ← lift (or_bad_request "AUR_LOOKUP_FAILED" (sources.client.info (name ∷ [])))
  subscribe_asked sources now uuid name packages

unfoldable pub subscribe : Sources → ℕ → (ℕ → String) → String → Handler SyncReport
unfolding sync_package record_sync ensure_package validate_package_name
subscribe sources now uuid package_name = do
  name ← lift (or_bad_request "INVALID_PACKAGE_NAME" (validate_package_name (trim package_name)))
  subscribe_named sources now uuid name

pub record Unsubscribed : Type 0 where
  pub package_base : String
  pub removed_package_bases : List String

abbrev pub remove_subscription : String → AppState → AppState
remove_subscription base s = record s {
  subscriptions = keep (λ other. not (other == base)) s.subscriptions;
}

-- `before.members.difference(&after.members)`
abbrev pub difference : List String → List String → List String
difference before after = keep (λ base. not (contains after base)) before

unfoldable pub unsubscribe : String → Handler Unsubscribed
unfolding closure_run
unsubscribe base = do
  before ← reads compute_closure
  deleted ← reads (λ s. affected (λ other. other == base) s.subscriptions)
  modify (remove_subscription base)
  check (not (deleted == 0)) not_found_error
  after ← reads compute_closure
  modify wake
  pure (record {
    package_base = base;
    removed_package_bases = difference before.members after.members;
  })

unfoldable pub refresh : Sources → ℕ → (ℕ → String) → String → Handler SyncReport
unfolding sync_package record_sync
refresh sources now uuid base = do
  known ← reads (λ s. any (is_base base) s.packages)
  check known not_found_error
  checked sources now uuid base

abbrev pub policy_row : Bool → Package → Package
policy_row allow_check p = record p { allow_check = allow_check }

abbrev pub set_policy : String → Bool → AppState → AppState
set_policy base allow_check s = record s {
  packages = update_where (is_base base) (policy_row allow_check) s.packages;
}

unfoldable pub set_build_policy : String → Bool → Handler (String × Bool)
set_build_policy base allow_check = do
  updated ← reads (λ s. affected (is_base base) s.packages)
  modify (set_policy base allow_check)
  check (not (updated == 0)) not_found_error
  pure (base, allow_check)

abbrev pub is_selectable : DependencyState → Bool
is_selectable needs_selection = true
is_selectable _ = false

abbrev pub dependencies_found : Option Revision → ApiResult (List ResolvedDependency)
dependencies_found none = err not_found_error
dependencies_found (some r) = ok r.dependencies

abbrev pub or_error : {A : Type 0} → ApiError → Option A → ApiResult A
or_error e none = err e
or_error e (some a) = ok a

abbrev pub find_selectable : String → List ResolvedDependency → Option ResolvedDependency
find_selectable dependency = find (λ d. d.name == dependency && is_selectable d.state)

-- the choice, in the place of an earlier one, and the row of the package
abbrev pub choose_provider : ℕ → String → String → String → AppState → AppState
choose_provider now base dependency selected s =
    ensure_package selected now
      (record s { provider_choices = put (base, dependency) selected s.provider_choices })

-- the parts of `select_provider`, from the last to the first
abbrev pub choose_candidate :
    ℕ → String → String → String → ResolvedDependency → Handler (String × String × String)
choose_candidate now base dependency selected candidate = do
  check (contains candidate.candidates selected) (bad_request_error "PROVIDER_NOT_CANDIDATE")
  modify (choose_provider now base dependency selected)
  modify wake
  pure (base, dependency, selected)

abbrev pub choose_among :
    ℕ → String → String → String → List ResolvedDependency → Handler (String × String × String)
choose_among now base dependency selected dependencies = do
  candidate ← lift (
      or_error (bad_request_error "PROVIDER_NOT_REQUIRED")
        (find_selectable dependency dependencies))
  choose_candidate now base dependency selected candidate

unfoldable pub select_provider : ℕ → String → String → String → Handler (String × String × String)
unfolding dependency_revision ensure_package
select_provider now base dependency selected = do
  dependencies ← reads_result (λ s. dependencies_found (dependency_revision s base))
  choose_among now base dependency selected dependencies
