-- ===== src/Daemon/Publish/Reconcile/Due.antt =====
-- crates/aursmithd/src/publish.rs: when a round of the daemon has a plan to write.
use aursmith.Base.{
  ℕ, suc, ◌+◌, ◌≤◌, String, List, [], ◌∷◌, Bool, true, false, not, ◌&&◌, ◌||◌, Option, none, some,
  Result, ok, err, ◌≡◌, refl, sym, ap, ◌∙◌, arith, ◌==◌, string_ord, ==_iff, any, All, keep, lookup,
  newest, is_empty, is_some, Bool-cases, Option-cases, inl, inr, ◌⊎◌,
}
use aursmith.Core.Protocol.{ArtifactRecord}
use aursmith.Daemon.State.{
  AppState, Build, BuildState, queued, running, uploading, Publication, PublicationState, pending,
  published, failed,
}
use aursmith.Daemon.Closure.{Closure}
use aursmith.Daemon.Builds.Usable.{
  has_active_build, dependency_builds, collect_builds, usable_build, add_build, or_waiting,
  is_ready, closure_of, is_queued, is_unfinished, Waiting, Dependencies,
}
use aursmith.Daemon.Publish.Desired.{Desired}
use aursmith.Daemon.Publish.Plan.{Codec, plan_sha256, is_pending, is_published}
use aursmith.Daemon.Publish.Reconcile.{is_settled, latest_publication, finished_recently, is_failed}

-- the builds that a package needs are there, and it waits for no choice of a provider
abbrev pub IsReady : AppState → Closure → String → Type 0
IsReady s c base =
    (lookup base c.unresolved ≡ none)
    × All (λ needed. (needed == base) ≡ false → is_some (usable_build s needed) ≡ true)
        (closure_of c.graph base)

-- a build of the package that runs, uploads, or is queued and could run
abbrev pub IsActive : AppState → Closure → String → Build → Type 0
IsActive s c base b =
    (b.package_base ≡ base)
    × (b.state ≡ running ⊎ b.state ≡ uploading ⊎ (b.state ≡ queued × IsReady s c base))

-- the publication of a plan settles it: it is published, or failed less than fifteen minutes ago
abbrev pub Settles : ℕ → String → Publication → Type 0
Settles now sha256 p =
    (p.plan_sha256 ≡ sha256)
    × (p.state ≡ published
        ⊎ (p.state ≡ failed)
          × (finished : ℕ) × (p.finished_at ≡ some finished)
          × (suc now ≤ finished + 900))

-- No member has an active build, no publication waits, and the latest publication does not settle the
-- plan; where there is none, the plan has artifacts.
pub record IsDue (codec : Codec) (now : ℕ) (c : Closure) (d : Desired) (s : AppState) : Type 0 where
  pub idle : All (λ base. All (λ b. IsActive s c base b → ⊥) s.builds) c.members
  pub none_waits : All (λ p. p.state ≡ pending → ⊥) s.publications
  pub unsettled :
      (p : Publication)
      → newest (λ q. q.created_at) s.publications ≡ some p
      → Settles now (plan_sha256 codec d.plan) p
      → ⊥
  pub wanted : newest (λ q. q.created_at) s.publications ≡ none → is_empty d.plan.artifacts ≡ false

add_build-ok :
    (needed : String) (build : Option (String × List ArtifactRecord))
    (rest : Result Dependencies Waiting)
    → is_ready (add_build needed build rest) ≡ (is_some build && is_ready rest)
add_build-ok needed none rest = refl
add_build-ok needed (some build) (ok builds) = refl
add_build-ok needed (some build) (err w) = refl

module _ (s : AppState) (base : String) where
  abbrev AllUsable : List String → Type 0
  AllUsable = All (λ needed. (needed == base) ≡ false → is_some (usable_build s needed) ≡ true)

  collect_builds-AllUsable :
      (needs : List String)
      → (is_ready (collect_builds s base needs) ≡ true → AllUsable needs)
        × (AllUsable needs → is_ready (collect_builds s base needs) ≡ true)
  unfolding collect_builds
  collect_builds-AllUsable [] = ((λ e. tt), λ h. refl)
  collect_builds-AllUsable (needed ∷ needs) =
      let (there, back) = collect_builds-AllUsable needs in
      elim (Bool-cases (needed == base)) [
        | inl e ↦
            (λ h. ((λ n. absurd (ground (arith, e, n))), there (rw e at h)), λ h. rw e (back h.1))
        | inr n ↦
            let split = add_build-ok needed (usable_build s needed) (collect_builds s base needs) in
            (
              λ h.
                  let both = sym split ∙ (rw n at h) in
                  ((λ own. ground (arith, both)), there (ground (arith, both))),
              λ h. rw n (split ∙ ground (arith, h.0 n, back h.1)),
            )
      ]

-- the builds of the package are not active, for one or for all
module _ (s : AppState) (c : Closure) (base : String) where
  dependency_builds-IsReady :
      (is_ready (dependency_builds s c base) ≡ true → IsReady s c base)
      × (IsReady s c base → is_ready (dependency_builds s c base) ≡ true)
  unfolding dependency_builds
  dependency_builds-IsReady =
      let (there, back) = collect_builds-AllUsable s base (closure_of c.graph base) in
      elim (Option-cases (lookup base c.unresolved)) [
        | inl n ↦ ((λ e. (n, there (rw n at e))), λ h. rw n (back h.1))
        | inr (names, e) ↦ (
          λ h. absurd (ground (arith, rw (e, or_waiting) at h)),
          λ h. absurd (ground (arith, e, h.0)),
        )
      ]

  abbrev is_active : Build → Bool
  is_active b =
      (b.package_base == base && is_unfinished b.state)
      && (not (is_queued b.state) || is_ready (dependency_builds s c base))

  state-IsActive :
      (state : BuildState)
      → (is_unfinished state && (not (is_queued state) || is_ready (dependency_builds s c base)))
        ≡ true
      → state ≡ running ⊎ state ≡ uploading ⊎ (state ≡ queued × IsReady s c base)
  state-IsActive running e = inl refl
  state-IsActive uploading e = inr (inl refl)
  state-IsActive queued e = inr (inr (refl, dependency_builds-IsReady.0 (ground arith)))
  state-IsActive _ e = absurd (ground arith)

  active_state :
      (state : BuildState)
      → state ≡ running ⊎ state ≡ uploading ⊎ (state ≡ queued × IsReady s c base)
      → (is_unfinished state && (not (is_queued state) || is_ready (dependency_builds s c base)))
        ≡ true
  active_state state (inl e) = rw e refl
  active_state state (inr (inl e)) = rw e refl
  active_state state (inr (inr (e, ready))) = rw e (dependency_builds-IsReady.1 ready)

  any-IsActive :
      (rows : List Build)
      → (any
              (λ b. not (is_queued b.state) || is_ready (dependency_builds s c base))
              (keep (λ b. b.package_base == base && is_unfinished b.state) rows)
            ≡ false
          → All (λ b. IsActive s c base b → ⊥) rows)
        × (All (λ b. IsActive s c base b → ⊥) rows
            → any
                (λ b. not (is_queued b.state) || is_ready (dependency_builds s c base))
                (keep (λ b. b.package_base == base && is_unfinished b.state) rows)
              ≡ false)
  any-IsActive [] = ((λ e. tt), λ h. refl)
  any-IsActive (b ∷ rows) =
      let (there, back) = any-IsActive rows in
      (
        λ e. (
          λ (own, active).
              absurd (
                ground (arith, (==_iff b.package_base base).1 own, active_state b.state active, e)),
          there (ground (arith, e)),
        ),
        λ h. elim (Bool-cases (is_active b)) [
          | inr n ↦ ground (arith, n, back h.1)
          | inl active ↦ absurd (
              h.0 (
                (==_iff b.package_base base).0 (ground (arith, active)),
                state-IsActive b.state (ground (arith, active)),
              ))
        ],
      )

module _ (s : AppState) (c : Closure) where
  members-idle :
      (members : List String)
      → (any (λ base. has_active_build s c base) members ≡ false
          → All (λ base. All (λ b. IsActive s c base b → ⊥) s.builds) members)
        × (All (λ base. All (λ b. IsActive s c base b → ⊥) s.builds) members
            → any (λ base. has_active_build s c base) members ≡ false)
  unfolding has_active_build
  members-idle [] = ((λ e. tt), λ h. refl)
  members-idle (base ∷ members) =
      let (there, back) = members-idle members in
      let (idle, quiet) = any-IsActive s c base s.builds in
      (
        λ e. (idle (ground (arith, e)), there (ground (arith, e))),
        λ h. ground (arith, quiet h.0, back h.1),
      )

pending_iff :
    (rows : List Publication)
    → (any (λ p. is_pending p.state) rows ≡ false → All (λ p. p.state ≡ pending → ⊥) rows)
      × (All (λ p. p.state ≡ pending → ⊥) rows → any (λ p. is_pending p.state) rows ≡ false)
pending_iff [] = ((λ e. tt), λ h. refl)
pending_iff (p ∷ rows) =
    let (there, back) = pending_iff rows in
    (
      λ e. ((λ waits. absurd (ground (arith, e, ap is_pending waits))), there (ground (arith, e))),
      λ h. elim (Bool-cases (is_pending p.state)) [
        | inr n ↦ ground (arith, n, back h.1)
        | inl waits ↦ absurd (h.0 (is_pending-pending p.state waits))
      ],
    )
  where
    is_pending-pending : (state : PublicationState) → is_pending state ≡ true → state ≡ pending
    is_pending-pending pending e = refl
    is_pending-pending _ e = absurd (ground arith)

module _ (now : ℕ) (d : Desired) (sha256 : String) where
  settled_state :
      (state : PublicationState) (finished : Option ℕ)
      → (is_published state || is_failed state && finished_recently now finished) ≡ true
      → state ≡ published ⊎ (state ≡ failed) × (t : ℕ) × (finished ≡ some t) × (suc now ≤ t + 900)
  settled_state published finished e = inl refl
  settled_state failed (some t) e = inr (refl, t, refl, ground arith)
  settled_state _ finished e = absurd (ground arith)

  state_settles :
      (state : PublicationState) (finished : Option ℕ)
      → state ≡ published ⊎ (state ≡ failed) × (t : ℕ) × (finished ≡ some t) × (suc now ≤ t + 900)
      → (is_published state || is_failed state && finished_recently now finished) ≡ true
  state_settles state finished (inl e) = rw e refl
  state_settles state finished (inr (e, t, at_end, recent)) = rw (e, at_end) (ground arith)

  is_settled-Settles :
      (p : Publication)
      → (is_settled now d sha256 (some p) ≡ true → Settles now sha256 p)
        × (Settles now sha256 p → is_settled now d sha256 (some p) ≡ true)
  unfolding is_settled
  is_settled-Settles p = (
    λ e. (
      (==_iff p.plan_sha256 sha256).0 (ground (arith, e)),
      settled_state p.state p.finished_at (ground (arith, e)),
    ),
    λ h.
        ground
          (arith, (==_iff p.plan_sha256 sha256).1 h.0, state_settles p.state p.finished_at h.1),
  )

-- whether a round writes the desired state of the prepared state
abbrev pub is_due : Codec → ℕ → Closure → Desired → AppState → Bool
is_due codec now c d s =
    not (
      any (λ base. has_active_build s c base) c.members
      || any (λ p. is_pending p.state) s.publications)
    && not (is_settled now d (plan_sha256 codec d.plan) (latest_publication s))

module _ (codec : Codec) (now : ℕ) (c : Closure) (d : Desired) (s : AppState) where
  abbrev settled : Bool
  settled = is_settled now d (plan_sha256 codec d.plan) (latest_publication s)

  unsettled_iff :
      (settled ≡ false
        → ((p : Publication)
            → latest_publication s ≡ some p
            → Settles now (plan_sha256 codec d.plan) p
            → ⊥)
          × (latest_publication s ≡ none → is_empty d.plan.artifacts ≡ false))
      × (((p : Publication)
            → latest_publication s ≡ some p
            → Settles now (plan_sha256 codec d.plan) p
            → ⊥)
          → (latest_publication s ≡ none → is_empty d.plan.artifacts ≡ false)
          → settled ≡ false)
  unfolding is_settled
  unsettled_iff =
      let sha256 = plan_sha256 codec d.plan in
      (
        λ e. (
          λ p latest settles.
              absurd
                (ground (arith, (is_settled-Settles now d sha256 p).1 settles, rw latest at e)),
          λ latest. rw latest at e,
        ),
        λ open_one wanted. elim (Option-cases (latest_publication s)) [
          | inl n ↦ rw n (wanted n)
          | inr (p, e) ↦ elim (Bool-cases (is_settled now d sha256 (some p))) [
            | inl holds ↦ absurd (open_one p e ((is_settled-Settles now d sha256 p).0 holds))
            | inr fails ↦ rw e fails
          ]
        ],
      )

  pub is_due-IsDue :
      (is_due codec now c d s ≡ true → IsDue codec now c d s)
      × (IsDue codec now c d s → is_due codec now c d s ≡ true)
  is_due-IsDue =
      let (idle, quiet) = members-idle s c c.members in
      let (no_row, no_wait) = pending_iff s.publications in
      let (there, back) = unsettled_iff in
      (
        λ e.
            let own : settled ≡ false = ground (arith, e) in
            record {
              idle = idle (ground (arith, e));
              none_waits = no_row (ground (arith, e));
              unsettled = (there own).0;
              wanted = (there own).1;
            },
        λ h. ground (arith, quiet h.idle, no_wait h.none_waits, back h.unsettled h.wanted),
      )
