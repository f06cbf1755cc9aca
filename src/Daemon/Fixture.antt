-- ===== src/Daemon/Fixture.antt =====
-- A daemon with one package and one build, for the tests.
use aursmith.Base.{String, List, [], ◌∷◌, true, false, none, some, ◌==◌, string_ord, if◌then◌else◌}
use aursmith.Core.Protocol.{ArtifactRecord}
use aursmith.Core.Srcinfo.{SrcInfo}
use aursmith.Daemon.State.{
  no_exchange, AppState, Config, Build, BuildState, uploading, Bytes, BuildReason, Revision,
  Snapshot,
}
use aursmith.Daemon.State

abbrev pub artifact : ArtifactRecord
artifact = record {
  file = "demo-1.2-3-x86_64.pkg.tar.zst";
  sha256 = "aaaaaaaaaaaaaaaaaaaaaaaaaaaaaaaaaaaaaaaaaaaaaaaaaaaaaaaaaaaaaaaa";
  size = 3;
  package_name = "demo";
  package_version = "1.2-3";
  architecture = "x86_64";
}

abbrev pub outputs : List String
outputs = "demo" ∷ []

abbrev pub info : SrcInfo
info = record {
  package_base = "demo";
  version = "1.2-3";
  outputs = outputs;
  dependencies = [];
  optional_dependencies = [];
  provides = [];
  architectures = [];
  sources = [];
  valid_pgp_keys = [];
}

abbrev pub revision : Revision
revision = record {
  id = "r";
  package_base = "demo";
  aur_commit = "c";
  vcs_commit = none;
  version = "1.2-3";
  tree_sha256 = "t";
  snapshot = record {
    package_base = "demo";
    aur_commit = "c";
    vcs_commit = none;
    info = info;
    files = [];
  };
  dependencies = [];
  baseline_revision_id = none;
  state = State.RevisionState.approved;
  created_at = 1;
  decided_at = none;
}

abbrev pub uploaded_build : Build
uploaded_build = record {
  id = "b";
  revision_id = "r";
  package_base = "demo";
  state = uploading;
  attempt = 2;
  reason = BuildReason.approved;
  allow_check = true;
  builder_id = some "home";
  lease_expires_at = some 900;
  dep_build_ids = [];
  artifacts = artifact ∷ [];
  error_code = none;
  error_class = none;
  log = none;
  created_at = 1;
  started_at = none;
  finished_at = none;
}

abbrev pub contents : Bytes
contents = 1 ∷ 2 ∷ 3 ∷ []

abbrev pub state_with : List Build → AppState
state_with builds = record {
  config = record {
    builder_token_sha256 = "token";
    repository_name = "repo";
    update_interval_minutes = 30;
  };
  subscriptions = "demo" ∷ [];
  provider_choices = [];
  packages =
      record {
        package_base = "demo";
        version = none;
        description = none;
        maintainer = none;
        out_of_date = none;
        last_modified = none;
        outputs = [];
        allow_check = true;
        next_check_at = 0;
        last_checked_at = none;
        sync_failures = 0;
        sync_error = none;
      }
      ∷ [];
  revisions = revision ∷ [];
  reviews = [];
  builds = builds;
  publications = [];
  artifacts = λ id. some (λ file. if file == artifact.file then some contents else none);
  exchange = no_exchange;
  builder_seen = none;
  woken = false;
}

-- the digest of the tests: every content has that of the artifact
abbrev pub digest : Bytes → String
digest bytes = artifact.sha256

abbrev pub same : String → String
same text = text
