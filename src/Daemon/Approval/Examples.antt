-- ===== src/Daemon/Approval/Examples.antt =====
-- Tests of the approval of revisions.
use aursmith.Base.{ℕ, String, [], none, false, refl}
use aursmith.Core.Srcinfo.{SrcInfo}
use aursmith.Daemon.State.{no_exchange, AppState, Snapshot}
use aursmith.Daemon.Revisions.{Decoders, insert_revision}
use aursmith.Daemon.Approval.{IsReviewed}
use aursmith.Daemon.Approval.Gate.{unchanged, change, snapshot_stored, Changed-IsReviewed}

abbrev info : SrcInfo
info = record {
  package_base = "demo";
  version = "1-1";
  outputs = [];
  dependencies = [];
  optional_dependencies = [];
  provides = [];
  architectures = [];
  sources = [];
  valid_pgp_keys = [];
}

abbrev snapshot : Snapshot
snapshot = record {
  package_base = "demo";
  aur_commit = "c";
  vcs_commit = none;
  info = info;
  files = [];
}

abbrev decoders : Decoders
decoders = record {
  base64 = λ text. none;
  digest = λ bytes. "d";
  utf8 = λ bytes. "";
  tree_sha256 = λ tree. "t";
}

abbrev fresh_database : AppState
fresh_database = record {
  config = record {
    builder_token_sha256 = "token";
    repository_name = "repo";
    update_interval_minutes = 30;
  };
  subscriptions = [];
  provider_choices = [];
  packages = [];
  revisions = [];
  reviews = [];
  builds = [];
  publications = [];
  artifacts = λ id. none;
  exchange = no_exchange;
  builder_seen = none;
  woken = false;
}

abbrev uuid : ℕ → String
uuid n = "u"

-- the state after a first snapshot is stored
Changed-IsReviewed_example :
    IsReviewed (insert_revision decoders 1 uuid snapshot [] fresh_database).0
Changed-IsReviewed_example =
    Changed-IsReviewed (insert_revision decoders 1 uuid snapshot [] fresh_database).0 (
      change fresh_database (insert_revision decoders 1 uuid snapshot [] fresh_database).0
        (unchanged fresh_database refl) (snapshot_stored decoders 1 uuid snapshot [] refl))
