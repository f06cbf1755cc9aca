-- ===== src/Lib.antt =====
-- AURsmith builds packages of the Arch User Repository. A public daemon (crates/aursmithd) follows
-- subscriptions, takes snapshots of AUR repositories, has them scanned and reviewed, and queues builds;
-- a builder at home (crates/aursmith-builder) leases a build, reports its end and uploads the
-- artifacts. In rounds, the daemon compares what the subscriptions want with what has been published, and
-- writes a plan to a directory that a signer without a network reads. The rules all share are pure functions of crates/aursmith-core.
--
-- The files and the code they model:
--   Base              lists, sets, maps, texts, orders and results that the code takes from Rust;
--   Core/Names        crates/aursmith-core/src/names.rs, and is_sha256_hex of lib.rs;
--   Core/Graph        crates/aursmith-core/src/graph.rs: add_package, add_dependency, topological_order,
--                     closure;
--   Core/Protocol     crates/aursmith-core/src/protocol.rs: messages, limits, classify_error_code;
--   Core/Review       crates/aursmith-core/src/review.rs: after_lows, decide, parse_report;
--   Core/Srcinfo      crates/aursmith-core/src/srcinfo.rs: parse_srcinfo, dependency_name,
--                     git_vcs_source;
--   Core/Scan         crates/aursmith-core/src/scan.rs: scan_aur_wrapper;
--   Daemon/State      the tables of crates/aursmithd/migrations/0001_schema.sql and AppState of app.rs;
--   Daemon/Handler    requests: state and result in one, with the errors of error.rs;
--   Daemon/Auth       require_builder of crates/aursmithd/src/auth.rs;
--   Daemon/Closure    compute_closure of crates/aursmithd/src/packages.rs;
--   Daemon/Revisions  insert_revision of crates/aursmithd/src/packages.rs;
--   Daemon/Packages   the rest of crates/aursmithd/src/packages.rs: resolve_dependencies, the checks of
--                     packages and their schedule, subscriptions, policies, providers, and the views;
--                     of crates/aursmithd/src/aur.rs, rank_search_results and is_public_ip;
--   Daemon/Review     review_next, decide_manually and retry of crates/aursmithd/src/review.rs;
--   Daemon/Approval   what stands behind an approved revision, over Daemon/Revisions and Daemon/Review;
--   Daemon/Builds     crates/aursmithd/src/builds.rs: the schedule, leases, failures, reports, uploads,
--                     rebuilds; Daemon/Builds/Sound is the invariant of the builds and their files;
--   Daemon/Publish    crates/aursmithd/src/publish.rs: the desired state of the repository, the plan for
--                     the signer, its results, the rounds of the daemon's loop, the removal of artifacts;
--   Signer            crates/aursmithd/src/signer.rs: validate_plan, read_plan, activate, current_release,
--                     rollback, prune; Signer/Plan/Received joins it to the plans of Daemon/Publish.
--
-- How the model stands to the code. A table is the list of its rows in the order of insertion, a JSON
-- column holds its decoded value, a time is a number of seconds. The store of artifacts is a function
-- from directories and file names to contents. A handler takes the state to a result and a state, and
-- keeps what it changed where it returns an error. A request is atomic and reads the clock once. Queries
-- and writes of files succeed, but for a directory that is not there; of rows that an ORDER BY leaves
-- equal, the first is taken. Identifiers that the code draws at random are arguments, and are assumed
-- to be new. SHA-256, base64, JSON, lossy UTF-8, the text of a set in a message, the replies of the
-- agents and the answers of the AUR client are parameters. Characters are their code points, and texts
-- have the length of their UTF-8 bytes.
--
-- Fuel. `topological_order` and `closure` take as many steps as packages and edges allow at most, and
-- `compute_closure` as many as subscriptions and dependencies of all revisions; the theorems on them
-- show that the loops end by themselves within this. The names asked of the AUR go out in chunks, for
-- which as many steps as names are enough.
--
-- Not modelled: HTTP and routing, sessions of administrators, the requests of the AUR client, the
-- signer's publication of a plan, the builder's containers, the web interface. They do input and output,
-- or wait for the parts above.
pub mod Base
pub mod Core
pub mod Daemon
pub mod Signer
