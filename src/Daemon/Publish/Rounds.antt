-- ===== src/Daemon/Publish/Rounds.antt =====
-- crates/aursmithd/src/publish.rs: the daemon's loop, a round for each time it wakes, and the list of the
-- publications for an administrator.
use aursmith.Base.{
  ℕ, suc, ◌+◌, ◌*◌, ◌≤◌, String, List, [], ◌∷◌, Bool, false, Option, none, some, sym, subst,
  Bool-cases, inl, inr, length, ltb, ◌==◌, nat_ord, sort_by, foldl, if◌then◌else◌,
}
use aursmith.Daemon.State.{AppState, Publication}
use aursmith.Daemon.Handler.{Handler, reads_result, pure, ◌>>=◌}
use aursmith.Daemon.Closure.{compute_closure, closure_run}
use aursmith.Daemon.Builds.Usable.{take}
use aursmith.Daemon.Publish.Desired.{desired_state}
use aursmith.Daemon.Publish.Plan.{Codec, plan_sha256, is_published}
use aursmith.Daemon.Publish.Reconcile.{reconcile}
use aursmith.Daemon.Publish.Reconcile.Pending.{pending_count, reconcile-pending_count}
use aursmith.Daemon.Publish.Garbage.{collect_garbage, newer_first}
use aursmith.Daemon.Publish.Garbage.Pruned.{collect_garbage-pruned}

-- what a round of the loop meets: the time, the identifiers drawn, and the entries of the store
pub record Round : Type 0 where
  pub now : ℕ
  pub uuid : String → String
  pub id : String
  pub entries : List String

-- in seconds
abbrev pub garbage_interval : ℕ
garbage_interval = 60 * 60

-- one round, with the time of the last collection; an error of `reconcile` is logged
unfoldable pub run_round : Codec → AppState × ℕ → Round → AppState × ℕ
unfolding reconcile collect_garbage
run_round codec (s, last_gc) round =
    let t = (reconcile codec round.now round.uuid round.id s).1 in
    if ltb (last_gc + garbage_interval) round.now
    then ((collect_garbage round.entries t).0, round.now)
    else (t, last_gc)

-- the loop over some rounds
unfoldable pub run_loop : Codec → ℕ → List Round → AppState → AppState × ℕ
unfolding run_round
run_loop codec start rounds s = foldl (run_round codec) (s, start) rounds

pub record PublicationItem : Type 0 where
  pub publication : Publication
  pub current : Bool

pub record PublicationList : Type 0 where
  pub items : List PublicationItem
  pub plan_sha256 : String
  pub artifact_count : ℕ
  pub withheld : List String

-- `iter().position(…)` of the first row that is published
abbrev pub published_position : List Publication → Option ℕ
published_position [] = none
published_position (p ∷ rows) =
    let rest = published_position rows in
    if is_published p.state then some 0 else elim rest [ none ↦ none | some i ↦ some (suc i) ]

abbrev is_position : Option ℕ → ℕ → Bool
is_position none index = false
is_position (some i) index = i == index

abbrev pub items_from : Option ℕ → ℕ → List Publication → List PublicationItem
items_from current index [] = []
items_from current index (p ∷ rows) =
    record { publication = p; current = is_position current index }
    ∷ items_from current (suc index) rows

unfoldable pub list : Codec → Handler PublicationList
unfolding desired_state closure_run
list codec s =
    let rows = take 50 (sort_by newer_first s.publications) in
    (reads_result (λ t. desired_state t (compute_closure t)) >>= λ desired. pure (record {
      items = items_from (published_position rows) 0 rows;
      plan_sha256 = plan_sha256 codec desired.plan;
      artifact_count = length desired.plan.artifacts;
      withheld = desired.withheld;
    }))
      s

module _ (codec : Codec) where
  run_round-pending_count :
      (s : AppState) (last_gc : ℕ) (round : Round)
      → pending_count s.publications ≤ 1
      → pending_count (run_round codec (s, last_gc) round).0.publications ≤ 1
  unfolding run_round
  run_round-pending_count s last_gc round few =
      let t = (reconcile codec round.now round.uuid round.id s).1 in
      let kept = reconcile-pending_count codec round.now round.uuid round.id s few in
      elim (Bool-cases (ltb (last_gc + garbage_interval) round.now)) [
        | inl e ↦
            rw (e, run_round)
              (subst (λ u. pending_count u.publications ≤ 1)
                (sym (collect_garbage-pruned round.entries t)) kept)
        | inr n ↦ rw (n, run_round) kept
      ]

  -- However long the daemon's loop runs, and whatever its rounds meet: where at most one publication
  -- waits for the signer at its start, at most one does afterwards.
  pub run_loop-pending_count :
      (rounds : List Round) (start : ℕ) (s : AppState)
      → pending_count s.publications ≤ 1
      → pending_count (run_loop codec start rounds s).0.publications ≤ 1
  unfolding run_loop
  run_loop-pending_count [] start s few = few
  run_loop-pending_count (round ∷ rounds) start s few =
      let next = run_round codec (s, start) round in
      run_loop-pending_count rounds next.1 next.0 (run_round-pending_count s start round few)
