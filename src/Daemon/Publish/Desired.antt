-- ===== src/Daemon/Publish/Desired.antt =====
-- crates/aursmithd/src/publish.rs: the desired state of the repository.
pub mod Choosing
pub mod Gathering
pub mod Closed
use aursmith.Base.{
  String, List, [], ◌∷◌, ◌++◌, Bool, not, Option, none, some, ok, err, nat_ord, string_ord,
  Ordering, contains, insert, put, keys, any, sort_by, ◌>>=◌, if◌then◌else◌,
}
use aursmith.Core.Protocol.{ArtifactRecord, PublishPlan, publish_plan_format}
use aursmith.Daemon.State.{AppState}
use aursmith.Daemon.Handler.{ApiResult, internal_error}
use aursmith.Daemon.Closure.{Closure}
use aursmith.Daemon.Builds.Usable.{usable_build, closure_of}

pub record Desired : Type 0 where
  pub plan : PublishPlan
  pub sources : List (String × String)
  pub withheld : List String

-- a package base with the usable build that stands for it
abbrev pub Chosen : Type 0
Chosen = List (String × (String × List ArtifactRecord))

abbrev pub choose : String → Option (String × List ArtifactRecord) → Chosen → Chosen
choose base none chosen = chosen
choose base (some build) chosen = put base build chosen

-- the first loop over the members, from its last round to its first
unfoldable pub choose_all : AppState → List String → Chosen
choose_all s [] = []
choose_all s (base ∷ members) = choose base (usable_build s base) (choose_all s members)

-- whether a package that `base` needs has no usable build
abbrev pub is_missing : Closure → Chosen → String → Bool
is_missing c chosen base =
    any (λ member. not (contains (keys chosen) member)) (closure_of c.graph base)

-- the second loop over the members
unfoldable pub withhold : Closure → Chosen → List String → List String
withhold c chosen [] = []
withhold c chosen (base ∷ members) =
    let rest = withhold c chosen members in
    if is_missing c chosen base then insert base rest else rest

-- the three collections of the third loop
pub record Gathered : Type 0 where
  pub artifacts : List ArtifactRecord
  pub sources : List (String × String)
  pub names : List String

abbrev pub gather : String → ArtifactRecord → Gathered → Gathered
gather build_id artifact g = record {
  artifacts = g.artifacts ++ artifact ∷ [];
  sources = put artifact.file build_id g.sources;
  names = insert artifact.package_name g.names;
}

unfoldable pub gather_artifacts : String → List ArtifactRecord → Gathered → ApiResult Gathered
gather_artifacts build_id [] g = ok g
gather_artifacts build_id (artifact ∷ records) g =
    let rest = gather_artifacts build_id records (gather build_id artifact g) in
    if contains g.names artifact.package_name then err internal_error else rest

abbrev pub gather_base :
    List String → String → String × List ArtifactRecord → Gathered → ApiResult Gathered
gather_base withheld base (build_id, records) g =
    if contains withheld base then ok g else gather_artifacts build_id records g

unfoldable pub gather_all : List String → Chosen → Gathered → ApiResult Gathered
unfolding gather_artifacts
gather_all withheld [] g = ok g
gather_all withheld ((base, build) ∷ chosen) g = do
  next ← gather_base withheld base build g
  gather_all withheld chosen next

abbrev then_by : Ordering → Ordering → Ordering
then_by Ordering.lt rest = Ordering.lt
then_by Ordering.eq rest = rest
then_by Ordering.gt rest = Ordering.gt

-- the derived `Ord` of `ArtifactRecord`
abbrev pub artifact_cmp : ArtifactRecord → ArtifactRecord → Ordering
artifact_cmp a b = then_by (string_ord.cmp a.file b.file) (
    then_by (string_ord.cmp a.sha256 b.sha256) (
      then_by (nat_ord.cmp a.size b.size) (
        then_by (string_ord.cmp a.package_name b.package_name) (
          then_by (string_ord.cmp a.package_version b.package_version)
            (string_ord.cmp a.architecture b.architecture)))))

abbrev pub nothing_gathered : Gathered
nothing_gathered = record { artifacts = []; sources = []; names = [] }

abbrev pub desired_of : AppState → List String → ApiResult Gathered → ApiResult Desired
desired_of s withheld (err e) = err e
desired_of s withheld (ok g) = ok (record {
  plan = record {
    format = publish_plan_format;
    repository_name = s.config.repository_name;
    artifacts = sort_by artifact_cmp g.artifacts;
  };
  sources = g.sources;
  withheld = withheld;
})

unfoldable pub desired_state : AppState → Closure → ApiResult Desired
unfolding choose_all withhold gather_all
desired_state s c =
    let chosen = choose_all s c.members in
    let withheld = withhold c chosen c.members in
    desired_of s withheld (gather_all withheld chosen nothing_gathered)
