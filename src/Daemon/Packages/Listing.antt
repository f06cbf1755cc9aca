-- ===== src/Daemon/Packages/Listing.antt =====
-- crates/aursmithd/src/packages.rs: the subscriptions and a package as an administrator sees them.
use aursmith.Base.{
  ℕ, String, List, [], map, Bool, true, false, not, ◌&&◌, Option, none, some, ok, err, ◌==◌,
  nat_ord, string_ord, pair_ord, Ordering, contains, keep, sort_by, newest, find, lookup, is_some,
}
use aursmith.Daemon.State.{
  AppState, Package, Revision, RevisionState, superseded, ResolvedDependency, DependencyState,
}
use aursmith.Daemon.Handler.{Handler, ApiResult, not_found_error, reads, reads_result, lift}
use aursmith.Daemon.Closure.{
  Closure, compute_closure, closure_run, dependency_revision, dependencies_of_row,
}
use aursmith.Daemon.Builds.Usable.{take}
use aursmith.Daemon.Builds.Listing.{BuildItem, recent_builds, joined_items}
use aursmith.Daemon.Packages.Aur.{AurClient, AurPackage}
use aursmith.Daemon.Packages.Sync.{is_base}
use aursmith.Daemon.Packages.Requests.{or_bad_request}

abbrev pub or_empty : Option (List String) → List String
or_empty none = []
or_empty (some names) = names

abbrev pub is_superseded : RevisionState → Bool
is_superseded superseded = true
is_superseded _ = false

-- the newest revision that is not superseded
abbrev pub shown_revision : AppState → String → Option Revision
shown_revision s base =
    newest (λ r. r.created_at)
      (keep (λ r. r.package_base == base && not (is_superseded r.state)) s.revisions)

-- the newest build, joined to its revision
abbrev pub shown_build : AppState → String → Option BuildItem
shown_build s base =
    newest (λ item. item.build.created_at)
      (joined_items s (keep (λ b. b.package_base == base) s.builds))

pub record SubscriptionItem : Type 0 where
  pub package_base : String
  pub direct : Bool
  pub required_by : List String
  pub row : Option Package
  pub revision : Option Revision
  pub build : Option BuildItem
  pub unresolved_providers : List String

abbrev pub subscription_item : AppState → Closure → String → SubscriptionItem
subscription_item s c base = record {
  package_base = base;
  direct = contains c.direct base;
  required_by = or_empty (lookup base c.required_by);
  row = find (is_base base) s.packages;
  revision = shown_revision s base;
  build = shown_build s base;
  unresolved_providers = or_empty (lookup base c.unresolved);
}

abbrev rank : Bool → ℕ
rank true = 0
rank false = 1

-- direct subscriptions first, then by name
abbrev pub by_directness : SubscriptionItem → SubscriptionItem → Ordering
by_directness a b = elim (nat_ord.cmp (rank a.direct) (rank b.direct)) [
  | Ordering.eq ↦ string_ord.cmp a.package_base b.package_base
  | Ordering.lt ↦ Ordering.lt
  | Ordering.gt ↦ Ordering.gt
]

abbrev pub subscription_items : AppState → Closure → List SubscriptionItem
subscription_items s c = sort_by by_directness (map (subscription_item s c) c.members)

unfoldable pub list_subscriptions : Handler (List SubscriptionItem)
unfolding closure_run
list_subscriptions = reads (λ s. subscription_items s (compute_closure s))

unfoldable pub search : AurClient → String → Handler (List AurPackage)
search client query = lift (or_bad_request "AUR_SEARCH_FAILED" (client.search query))

pub record DependencyItem : Type 0 where
  pub name : String
  pub kind : String
  pub state : DependencyState
  pub target : Option String
  pub selected : Option String
  pub candidates : List String

abbrev or_selected : Option String → Option String → Option String
or_selected none selected = selected
or_selected (some target) selected = some target

abbrev pub dependency_item : AppState → String → ResolvedDependency → DependencyItem
dependency_item s base d =
    let selected = lookup (base, d.name) s.provider_choices in
    record {
      name = d.name;
      kind = d.kind;
      state = d.state;
      target = or_selected d.target selected;
      selected = selected;
      candidates = d.candidates;
    }

pub record RevisionItem : Type 0 where
  pub revision : Revision
  pub first_time : Bool

abbrev pub revision_item : Revision → RevisionItem
revision_item r = record { revision = r; first_time = not (is_some r.baseline_revision_id) }

abbrev pub newest_revision_first : Revision → Revision → Ordering
newest_revision_first a b = nat_ord.cmp b.created_at a.created_at

pub record PackageDetail : Type 0 where
  pub row : Package
  pub direct : Bool
  pub in_closure : Bool
  pub required_by : List String
  pub revisions : List RevisionItem
  pub dependencies : List DependencyItem
  pub builds : List BuildItem

abbrev pub package_detail : AppState → Closure → String → Option Package → ApiResult PackageDetail
package_detail s c base none = err not_found_error
package_detail s c base (some p) = ok (record {
  row = p;
  direct = contains c.direct base;
  in_closure = contains c.members base;
  required_by = or_empty (lookup base c.required_by);
  revisions =
      map revision_item
        (take 20 (sort_by newest_revision_first (keep (λ r. r.package_base == base) s.revisions)));
  dependencies = map (dependency_item s base) (dependencies_of_row (dependency_revision s base));
  builds = recent_builds s (some base) 10;
})

unfoldable pub detail : String → Handler PackageDetail
unfolding closure_run dependency_revision recent_builds
detail base =
    reads_result (λ s. package_detail s (compute_closure s) base (find (is_base base) s.packages))
