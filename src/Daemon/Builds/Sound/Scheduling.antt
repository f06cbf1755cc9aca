-- ===== src/Daemon/Builds/Sound/Scheduling.antt =====
-- The schedule, the rebuild and the lease keep the builds sound. A build is inserted under an id that no
-- row and no directory has.
use aursmith.Base.{
  ℕ, String, List, [], ◌∷◌, map, Bool, false, ◌&&◌, Option, none, some, ◌≡◌, refl, arith, ◌==◌,
  string_ord, nat_ord, contains, Nodup, All, any, keep, ==_iff, Bool-cases, inl, inr, Nodup-snoc,
  contains-append,
}
use aursmith.Daemon.State.{AppState, Build, BuildReason, Bytes, Revision}
use aursmith.Daemon.Closure.{Closure}
use aursmith.Daemon.Builds.Usable.{is_queued}
use aursmith.Daemon.Builds.Schedule.{
  cancel, cancel_row, new_build, cancel_reason, cancel_stale, insert_build, approved_with_policy,
  schedule_revision, schedule_members, schedule,
}
use aursmith.Daemon.Keyed.{map-update_where, All-changed, All-end, map-end}
use aursmith.Daemon.Builds.Rows.{ids}
use aursmith.Daemon.Builds.Sound.{IsRow, IsSound}

-- an id that the rows and the artifact store do not have yet
abbrev pub IsFresh : String → AppState → Type 0
IsFresh id s = (contains (ids s.builds) id ≡ false) × (s.artifacts id ≡ none)

-- as many ids as members, all of them new and different
abbrev pub AllFresh : List String → AppState → Type 0
AllFresh new_ids s = Nodup new_ids × All (λ id. IsFresh id s) new_ids

module _ (digest : Bytes → String) where
  pub cancel-IsSound :
      (now : ℕ) (b : Build) (reason : Option String) (s : AppState)
      → IsSound digest s
      → IsSound digest (cancel now b reason s)
  cancel-IsSound now b none s sound = sound
  cancel-IsSound now b (some code) s sound = (
    rw
        (map-update_where (λ b. b.id) (λ x. x.id == b.id && is_queued x.state) (cancel_row now code)
          s.builds (λ r. refl))
        sound.0,
    All-changed (IsRow digest s) (IsRow digest (cancel now b (some code) s))
        (λ x. x.id == b.id && is_queued x.state) (cancel_row now code) s.builds
        (λ r row e. (row.0, row.1, tt)) (λ r row n. row) sound.1,
  )

  pub insert_build-IsSound :
      (now : ℕ) (id base revision_id : String) (allow_check : Bool) (reason : BuildReason)
      (s : AppState)
      → IsFresh id s
      → IsSound digest s
      → IsSound digest (insert_build now id base revision_id allow_check reason s)
  unfolding insert_build
  insert_build-IsSound now id base revision_id allow_check reason s fresh sound =
      let row = new_build now id base revision_id allow_check reason in
      (
        rw (map-end (λ b. b.id) s.builds row) (Nodup-snoc (ids s.builds) id sound.0 fresh.0),
        All-end (IsRow digest s) s.builds row sound.1
            (omega arith, omega arith, λ file. rw (fresh.1) refl),
      )

  -- The schedule leaves the ids that are fresh and the soundness.
  cancel-IsFresh :
      (now : ℕ) (b : Build) (reason : Option String) (s : AppState) (id : String)
      → IsFresh id s
      → IsFresh id (cancel now b reason s)
  cancel-IsFresh now b none s id fresh = fresh
  cancel-IsFresh now b (some code) s id fresh = (
    rw
        (map-update_where (λ b. b.id) (λ x. x.id == b.id && is_queued x.state) (cancel_row now code)
          s.builds (λ r. refl))
        fresh.0,
    fresh.1,
  )

  insert_build-IsFresh :
      (now : ℕ) (id base revision_id : String) (allow_check : Bool) (reason : BuildReason)
      (s : AppState) (other : String)
      → (id == other) ≡ false
      → IsFresh other s
      → IsFresh other (insert_build now id base revision_id allow_check reason s)
  unfolding insert_build
  insert_build-IsFresh now id base revision_id allow_check reason s other n fresh =
      let row = new_build now id base revision_id allow_check reason in
      (
        rw (map-end (λ b. b.id) s.builds row)
            (ground (arith, contains-append (ids s.builds) (id ∷ []) other)),
        fresh.1,
      )

  cancel_stale-lem :
      (now : ℕ) (c : Closure) (stale : List Build) (s : AppState)
      → IsSound digest s
      → IsSound digest (cancel_stale now c stale s)
        × ((id : String) → IsFresh id s → IsFresh id (cancel_stale now c stale s))
  unfolding cancel_stale
  cancel_stale-lem now c [] s sound = (sound, λ id fresh. fresh)
  cancel_stale-lem now c (b ∷ stale) s sound =
      let reason = cancel_reason s c b in
      let (rest, kept) =
        cancel_stale-lem now c stale (cancel now b reason s)
          (cancel-IsSound now b reason s sound) in
      (rest, λ id fresh. kept id (cancel-IsFresh now b reason s id fresh))

  schedule_revision-lem :
      (now : ℕ) (id base : String) (found : Option (Revision × Bool)) (s : AppState) (created : ℕ)
      → IsFresh id s
      → IsSound digest s
      → IsSound digest (schedule_revision now id base found (s, created)).0
        × ((other : String)
            → (id == other) ≡ false
            → IsFresh other s
            → IsFresh other (schedule_revision now id base found (s, created)).0)
  schedule_revision-lem now id base none s created fresh sound = (sound, λ other n f. f)
  schedule_revision-lem now id base (some (r, allow_check)) s created fresh sound =
      elim (Bool-cases (any (λ b. b.revision_id == r.id) s.builds)) [
        | inl e ↦ rw e (sound, λ other n f. f)
        | inr n ↦ rw n (
          insert_build-IsSound now id base r.id allow_check BuildReason.approved s fresh sound,
          λ other k f.
              insert_build-IsFresh now id base r.id allow_check BuildReason.approved s other k f,
        )
      ]

  still-IsFresh :
      (id : String) (s t : AppState) (new_ids : List String)
      → contains new_ids id ≡ false
      → ((other : String) → (id == other) ≡ false → IsFresh other s → IsFresh other t)
      → All (λ i. IsFresh i s) new_ids
      → All (λ i. IsFresh i t) new_ids
  still-IsFresh id s t [] absent keeps h = tt
  still-IsFresh id s t (x ∷ new_ids) absent keeps h = (
    keeps x (ground (arith, ==_iff id x, ==_iff x id)) h.0,
    still-IsFresh id s t new_ids (ground arith) keeps h.1,
  )

  module _ (now : ℕ) (uuid : String → String) where
    schedule_members-IsSound :
        (members : List String) (s : AppState) (created : ℕ)
        → AllFresh (map uuid members) s
        → IsSound digest s
        → IsSound digest (schedule_members now uuid members (s, created)).0
    unfolding schedule_members
    schedule_members-IsSound [] s created fresh sound = sound
    schedule_members-IsSound (base ∷ members) s created fresh sound =
        let found = approved_with_policy s base in
        let (t, count) = schedule_revision now (uuid base) base found (s, created) in
        let (sound_next, keeps) =
          schedule_revision-lem now (uuid base) base found s created fresh.1.0 sound in
        schedule_members-IsSound members t count
          (fresh.0.1, still-IsFresh (uuid base) s t (map uuid members) fresh.0.0 keeps fresh.1.1)
          sound_next

    pub schedule-IsSound :
        (c : Closure) (s : AppState)
        → AllFresh (map uuid c.members) s
        → IsSound digest s
        → IsSound digest (schedule now uuid c s).0
    unfolding schedule
    schedule-IsSound c s fresh sound =
        let stale = keep (λ b. is_queued b.state) s.builds in
        let (kept, keeps) = cancel_stale-lem now c stale s sound in
        schedule_members-IsSound c.members (cancel_stale now c stale s) 0
          (fresh.0, All_fresh-map (map uuid c.members) s (cancel_stale now c stale s) keeps fresh.1)
          kept
      where
        All_fresh-map :
            (new_ids : List String) (before after : AppState)
            → ((i : String) → IsFresh i before → IsFresh i after)
            → All (λ i. IsFresh i before) new_ids
            → All (λ i. IsFresh i after) new_ids
        All_fresh-map [] before after f h = tt
        All_fresh-map (x ∷ new_ids) before after f h =
            (f x h.0, All_fresh-map new_ids before after f h.1)
