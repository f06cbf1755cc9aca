-- ===== src/Daemon/Packages/Examples.antt =====
-- Tests of the packages: a client that knows two packages, of which one needs a choice.
use aursmith.Base.{
  ℕ, ◌≤◌, ◌<◌, ◌%◌, String, List, [], ◌∷◌, none, some, ok, err, ◌≡◌, refl, map, contains, ◌==◌,
  string_ord, if◌then◌else◌, ◌+◌, Option, Bool, pair_ord, nat_ord, true, false, not, any, arith,
  count, to_ascii_lowercase,
}
use aursmith.Core.Srcinfo.{SrcInfo, Dependency}
use aursmith.Daemon.State.{
  AppState, Revision, ResolvedDependency, needs_selection, official, Snapshot, pending_review,
}
use aursmith.Daemon.State
use aursmith.Daemon.Fixture.{state_with, revision}
use aursmith.Daemon.Handler.{ApiError}
use aursmith.Daemon.Handler
use aursmith.Daemon.Table.{Pairs}
use aursmith.Daemon.Packages.Aur.{AurClient, AurPackage}
use aursmith.Daemon.Packages.Aur.Search.{
  search_key, rank_search_results, AllPairs, Precedes, rank_search_results-Precedes,
}
use aursmith.Daemon.Packages.Aur.Addresses.{
  v4, v6, is_public_ip, number, within, blocks, is_public_ip-blocks,
}
use aursmith.Daemon.Packages.Clock.{next_scheduled_check, next_scheduled_check-bounds, period}
use aursmith.Daemon.Packages.Sync.{Sources, record_sync}
use aursmith.Daemon.Packages.Sync.Rows.{Recorded, record_sync-Recorded}
use aursmith.Daemon.Packages.Requests.{
  select_provider, subscribe, unsubscribe, SyncReport, Unsubscribed,
}
use aursmith.Daemon.Packages.Requests.Choices.{IsChosen, select_provider-IsChosen}
use aursmith.Daemon.Packages.Requests.Subscriptions.{subscribe-error, unsubscribe-subscribe}

abbrev found : String → String → AurPackage
found name base = record {
  name = name;
  package_base = base;
  version = "1-1";
  description = none;
  maintainer = none;
  out_of_date = none;
  last_modified = 5;
  depends = [];
  make_depends = [];
  check_depends = [];
  opt_depends = [];
  provides = [];
}

-- the AUR has `tool`, the official repositories have `lib`, and two packages provide `virtual`
abbrev client : AurClient
client = record {
  search = λ query. ok [];
  info = λ names. ok (if contains names "tool" then found "tool" "tool" ∷ [] else []);
  official = λ name. ok (if name == "lib" then "lib" ∷ [] else []);
  providers = λ name. ok (if name == "virtual" then found "p" "one" ∷ found "q" "two" ∷ [] else []);
  snapshot = λ base. err "no answer";
  vcs_commit = λ urls. ok none;
}

abbrev sources : Sources
sources = record {
  client = client;
  decoders = record {
    base64 = λ text. none;
    digest = λ bytes. "";
    utf8 = λ bytes. "";
    tree_sha256 = λ snapshot. "";
  };
  prefix = λ base. 1000000;
}

abbrev ids : ℕ → String
ids n = "id"

next_scheduled_check-bounds_example :
    (5000 < next_scheduled_check sources.prefix "tool" 5000 30)
    × (next_scheduled_check sources.prefix "tool" 5000 30 ≤ 5000 + period 30)
    × (next_scheduled_check sources.prefix "tool" 5000 30 % period 30 ≡ 1000000 % period 30)
next_scheduled_check-bounds_example = next_scheduled_check-bounds sources.prefix "tool" 5000 30

abbrev needs : String → Dependency
needs name = record { name = name; kind = "runtime" }

abbrev info : SrcInfo
info = record {
  package_base = "demo";
  version = "1-1";
  outputs = "demo" ∷ [];
  dependencies = needs "demo" ∷ needs "tool" ∷ needs "lib" ∷ needs "virtual" ∷ needs "no/name" ∷ [];
  optional_dependencies = [];
  provides = [];
  architectures = [];
  sources = [];
  valid_pgp_keys = [];
}

abbrev resolved_as :
    String → State.DependencyState → Option String → List String → ResolvedDependency
resolved_as name state target candidates = record {
  name = name;
  kind = "runtime";
  state = state;
  target = target;
  candidates = candidates;
}

abbrev one_or_two : List String
one_or_two = "one" ∷ "two" ∷ []

abbrev dependencies : List ResolvedDependency
dependencies =
    resolved_as "tool" State.DependencyState.aur (some "tool") []
    ∷ resolved_as "lib" official none []
    ∷ resolved_as "virtual" needs_selection none one_or_two
    ∷ resolved_as "no/name" State.DependencyState.unknown none []
    ∷ []

abbrev state : AppState
state = record (state_with []) { revisions = record revision { dependencies = dependencies } ∷ [] }

record_sync-Recorded_example :
    Pairs
      (Recorded "demo" 5000 30 (some "no answer"))
      state.packages
      (record_sync sources 5000 "demo" (some "no answer") state).packages
record_sync-Recorded_example = record_sync-Recorded sources 5000 "demo" (some "no answer") state

abbrev choice : String × String × String
choice = ("demo", "virtual", "two")

chooses : (select_provider 5000 "demo" "virtual" "two" state).0 ≡ ok choice
unfolding select_provider
chooses = refl

select_provider-IsChosen_example :
    IsChosen "demo" "virtual" "two" state (select_provider 5000 "demo" "virtual" "two" state).1
select_provider-IsChosen_example =
    select_provider-IsChosen 5000 "demo" "virtual" "two" state choice chooses

abbrev nothing_found : ApiError
nothing_found = record { status = Handler.Status.not_found; code = "NOT_FOUND" }

refuses : (subscribe sources 5000 ids "unheard-of" state).0 ≡ err nothing_found
unfolding subscribe
refuses = refl

subscribe-error_example : (subscribe sources 5000 ids "unheard-of" state).1 ≡ state
subscribe-error_example = subscribe-error sources 5000 ids "unheard-of" state nothing_found refuses

abbrev sync_report : SyncReport
sync_report = record { package_base = "tool"; revision = none; sync_error = some "no answer" }

subscribes : (subscribe sources 5000 ids "tool" state).0 ≡ ok sync_report
unfolding subscribe
subscribes = refl

unsubscribe-subscribe_example :
    ((u : Unsubscribed) × ((unsubscribe "tool" (subscribe sources 5000 ids "tool" state).1).0
        ≡ ok u))
    × ((unsubscribe "tool" (subscribe sources 5000 ids "tool" state).1).1.subscriptions
        ≡ state.subscriptions)
unsubscribe-subscribe_example =
    unsubscribe-subscribe sources 5000 ids "tool" state sync_report subscribes refl

abbrev results : List AurPackage
results = found "notepad" "notepad" ∷ found "pad-bin" "pad" ∷ found "Pad" "pad" ∷ []

rank_search_results-Precedes_example :
    AllPairs (Precedes "pad") (rank_search_results results "pad")
    × ((p : AurPackage → Bool) → count p (rank_search_results results "pad") ≡ count p results)
rank_search_results-Precedes_example = rank_search_results-Precedes results "pad"

-- The package of the name comes first, and the one that only contains it last.
is_ranked :
    map (λ p. p.name) (rank_search_results results "pad") ≡ "Pad" ∷ "pad-bin" ∷ "notepad" ∷ []
unfolding rank_search_results search_key to_ascii_lowercase
is_ranked = refl

is_public_ip-blocks_example :
    is_public_ip (v4 172 31 0 1) ≡ not (any (within (number 172 31 0 1)) blocks)
is_public_ip-blocks_example =
    is_public_ip-blocks 172 31 0 1 (omega arith) (omega arith) (omega arith) (omega arith)

-- An address inside 172.16.0.0/12, one behind it, and 127.0.0.1 as an address of IPv6.
are_tested :
    (is_public_ip (v4 172 31 0 1) ≡ false)
    × (is_public_ip (v4 172 32 0 1) ≡ true)
    × (is_public_ip (v6 0 (0 ∷ 0 ∷ 0 ∷ 0 ∷ 0xffff ∷ 0x7f00 ∷ 1 ∷ [])) ≡ true)
unfolding is_public_ip
are_tested = (refl, refl, refl)
