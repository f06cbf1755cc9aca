-- ===== src/Daemon/Packages/Clock.antt =====
-- crates/aursmithd/src/packages.rs: when a package is checked next. The first eight bytes of the SHA-256
-- of its name, as a number, shift its checks within the interval.
use aursmith.Base.{
  ℕ, ◌+◌, ◌-◌, ◌*◌, ◌/◌, ◌%◌, ◌≤◌, ◌<◌, String, ◌≡◌, ◌∙◌, arith, leb, inl, inr, Bool-cases,
  if◌then◌else◌,
}
use native.Mathlib.Nat.{mod-lt, div-add-mod, mod-eq_of_lt, mul-add-mod_self_right}

abbrev pub max : ℕ → ℕ → ℕ
max a b = if leb a b then b else a

abbrev pub min : ℕ → ℕ → ℕ
min a b = if leb a b then a else b

-- `interval_minutes.max(1) * 60`
abbrev pub period : ℕ → ℕ
period interval_minutes = max interval_minutes 1 * 60

-- `(after - offset).div_euclid(period) + 1`; before the offset, which is below the period, the quotient
-- is -1
abbrev pub cycle : ℕ → ℕ → ℕ → ℕ
cycle seconds offset after = if leb offset after then (after - offset) / seconds + 1 else 0

unfoldable pub next_scheduled_check : (String → ℕ) → String → ℕ → ℕ → ℕ
next_scheduled_check prefix base after interval_minutes =
    let seconds = period interval_minutes in
    let offset = prefix base % seconds in cycle seconds offset after * seconds + offset

cycle-bounds :
    (seconds offset after : ℕ)
    → offset < seconds
    → (after < cycle seconds offset after * seconds + offset)
      × (cycle seconds offset after * seconds + offset ≤ after + seconds)
cycle-bounds seconds offset after small = elim (Bool-cases (leb offset after)) [
  | inl e ↦
      let whole = div-add-mod (after - offset) seconds in
      let rest = mod-lt (after - offset) {m = seconds} (omega arith) in
      rw e (grind arith, grind arith)
  | inr n ↦ rw n (ground arith, ground arith)
]

-- The next check of a package lies after the given time, at most one period later, and at the offset of
-- the package within the period.
pub next_scheduled_check-bounds :
    (prefix : String → ℕ) (base : String) (after interval_minutes : ℕ)
    → (after < next_scheduled_check prefix base after interval_minutes)
      × (next_scheduled_check prefix base after interval_minutes ≤ after + period interval_minutes)
      × (next_scheduled_check prefix base after interval_minutes % period interval_minutes
          ≡ prefix base % period interval_minutes)
unfolding next_scheduled_check
next_scheduled_check-bounds prefix base after interval_minutes =
    let seconds = period interval_minutes in
    let small = mod-lt (prefix base) {m = seconds} (ground arith) in
    let (later, soon) = cycle-bounds seconds (prefix base % seconds) after small in
    (
      later,
      soon,
      mul-add-mod_self_right (cycle seconds (prefix base % seconds) after) seconds
            (prefix base % seconds)
          ∙ mod-eq_of_lt small,
    )
