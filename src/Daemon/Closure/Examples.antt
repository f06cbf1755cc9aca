-- ===== src/Daemon/Closure/Examples.antt =====
-- Tests of the closure of the subscriptions.
use aursmith.Base.{String, List, [], ◌∷◌, true, false, none, some, ◌≡◌, refl, ◌⊎◌}
use aursmith.Core.Srcinfo.{SrcInfo}
use aursmith.Daemon.State.{no_exchange, AppState, Revision, ResolvedDependency, aur}
use aursmith.Daemon.State
use aursmith.Daemon.Closure.{
  compute_closure, closure_run, closure_loop, visit_dependency, is_full, dependency_revision,
}
use aursmith.Daemon.Closure.Fuel.{closure_run_ends}

abbrev library : ResolvedDependency
library = record {
  name = "library";
  kind = "runtime";
  state = aur;
  target = some "library";
  candidates = [];
}

abbrev info : SrcInfo
info = record {
  package_base = "app";
  version = "1-1";
  outputs = [];
  dependencies = [];
  optional_dependencies = [];
  provides = [];
  architectures = [];
  sources = [];
  valid_pgp_keys = [];
}

abbrev revision : Revision
revision = record {
  id = "r";
  package_base = "app";
  aur_commit = "c";
  vcs_commit = none;
  version = "1-1";
  tree_sha256 = "t";
  snapshot = record {
    package_base = "app";
    aur_commit = "c";
    vcs_commit = none;
    info = info;
    files = [];
  };
  dependencies = library ∷ [];
  baseline_revision_id = none;
  state = State.RevisionState.approved;
  created_at = 1;
  decided_at = none;
}

abbrev subscribed : AppState
subscribed = record {
  config = record {
    builder_token_sha256 = "token";
    repository_name = "repo";
    update_interval_minutes = 30;
  };
  subscriptions = "app" ∷ [];
  provider_choices = [];
  packages = [];
  revisions = revision ∷ [];
  reviews = [];
  builds = [];
  publications = [];
  artifacts = λ id. none;
  exchange = no_exchange;
  builder_seen = none;
  woken = false;
}

abbrev both : List String
both = "app" ∷ "library" ∷ []

dependency_is_member : (compute_closure subscribed).members ≡ both
unfolding closure_run closure_loop visit_dependency dependency_revision
dependency_is_member = refl

closure_run_ends_example :
    ((closure_run subscribed).1 ≡ []) ⊎ (is_full (closure_run subscribed).0 ≡ true)
closure_run_ends_example = closure_run_ends subscribed
