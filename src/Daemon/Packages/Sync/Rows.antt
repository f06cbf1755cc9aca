-- ===== src/Daemon/Packages/Sync/Rows.antt =====
-- crates/aursmithd/src/packages.rs: what a check records of a package.
use aursmith.Base.{
  ℕ, ◌+◌, ◌≤◌, ◌<◌, String, true, false, Option, none, some, ◌≡◌, refl, arith, string_ord,
}
use aursmith.Daemon.State.{AppState, Package}
use aursmith.Daemon.Table.{Pairs, update_where-Pairs}
use aursmith.Daemon.Packages.Clock.{next_scheduled_check-bounds, period, max}
use aursmith.Daemon.Packages.Sync.{
  Sources, record_sync, checked_row, failed_row, retry_delay, failures, is_base,
}

-- the longest time to the next check, in seconds
abbrev pub longest_wait : ℕ → ℕ
longest_wait interval_minutes = period (max interval_minutes 30)

retry_delay-bounds :
    (count interval : ℕ)
    → (30 ≤ retry_delay count interval) × (retry_delay count interval ≤ max interval 30)
retry_delay-bounds count interval = (ground arith, ground arith)

-- what a row becomes
abbrev pub Records : ℕ → ℕ → Option String → Package → Package → Type 0
Records now interval message p q =
    (q.last_checked_at ≡ some now)
    × (now < q.next_check_at)
    × (q.next_check_at ≤ now + longest_wait interval)

checked-Records :
    (sources : Sources) (now interval : ℕ) (p : Package)
    → Records now interval none p (checked_row sources now interval p)
checked-Records sources now interval p =
    let (later, soon, offset) =
      next_scheduled_check-bounds sources.prefix p.package_base now interval in
    (refl, later, ground (arith, soon))

failed-Records :
    (now interval count : ℕ) (message : String) (p : Package)
    → Records now interval (some message) p (failed_row now (retry_delay count interval) message p)
failed-Records now interval count message p =
    let (least, most) = retry_delay-bounds count interval in
    (refl, ground (arith, least), ground (arith, most))

abbrev pub next_failures : Option String → Package → ℕ
next_failures none p = 0
next_failures (some message) p = p.sync_failures + 1

-- a row before and after the check of a package is recorded
abbrev pub Recorded : String → ℕ → ℕ → Option String → Package → Package → Type 0
Recorded base now interval message p q =
    (is_base base p ≡ true
      → Records now interval message p q × (q.sync_failures ≡ next_failures message p))
    × (is_base base p ≡ false → q ≡ p)

-- After the check of a package, its row has the time of the check, a next check that lies later, by the
-- longer of the interval and half an hour at most, and no failures after a success or one more after a
-- failure; the other rows stay as they are.
pub record_sync-Recorded :
    (sources : Sources) (now : ℕ) (base : String) (message : Option String) (s : AppState)
    → Pairs
        (Recorded base now s.config.update_interval_minutes message)
        s.packages
        (record_sync sources now base message s).packages
unfolding record_sync
record_sync-Recorded sources now base none s =
    let interval = s.config.update_interval_minutes in
    update_where-Pairs (Recorded base now interval none) (is_base base)
      (checked_row sources now interval) s.packages
      (λ p e. ((λ own. (checked-Records sources now interval p, refl)), λ n. absurd (ground arith)))
      (λ p n. ((λ own. absurd (ground arith)), λ other. refl))
record_sync-Recorded sources now base (some message) s =
    let interval = s.config.update_interval_minutes in
    let count = failures s base in
    update_where-Pairs (Recorded base now interval (some message)) (is_base base)
      (failed_row now (retry_delay count interval) message) s.packages
      (λ p e.
        ((λ own. (failed-Records now interval count message p, refl)), λ n. absurd (ground arith)))
      (λ p n. ((λ own. absurd (ground arith)), λ other. refl))
