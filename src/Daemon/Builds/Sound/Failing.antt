-- ===== src/Daemon/Builds/Sound/Failing.antt =====
-- A failure and the leases that run out keep the builds sound.
use aursmith.Base.{
  All-keep, ℕ, String, List, [], ◌∷◌, true, false, Option, none, some, ◌≡◌, refl, arith, ◌==◌,
  string_ord, contains, Nodup, All, find, keep, ==_iff, ==_refl, Bool-cases, inl, inr,
  if◌then◌else◌,
}
use aursmith.Daemon.State.{AppState, Build, Bytes}
use aursmith.Daemon.Builds.Usable.{artifact_file}
use aursmith.Daemon.Builds.Failure.{
  fail_build, fail_expired, expire_leases, is_expired, retries, retry_row, fail_row,
  remove_directory,
}
use aursmith.Daemon.Keyed.{map-update_where, All-changed, All-zip, All-imp}
use aursmith.Daemon.Builds.Rows.{ids, Nodup-keep, All-found, others-differ}
use aursmith.Daemon.Builds.Sound.{IsRow, IsSound, IsRow-same}

-- the row has this attempt, if it has this id
abbrev pub Agrees : String → ℕ → Build → Type 0
Agrees id attempt r = (r.id == id) ≡ true → r.attempt ≡ attempt

removed : (id : String) (s : AppState) → (remove_directory id s).artifacts id ≡ none
removed id s = ground (arith, ==_refl id)

untouched :
    (id other : String) (s : AppState)
    → (other == id) ≡ false
    → (remove_directory id s).artifacts other ≡ s.artifacts other
untouched id other s n = rw n refl

module _ (digest : Bytes → String) (now : ℕ) (id : String) (attempt : ℕ) (code : String)
    (log : Option String) (s : AppState) where
  abbrev after : AppState
  after = (fail_build now id attempt code log s).0

  abbrev new_row : Build → Build
  new_row r = if retries code attempt then retry_row code log r else fail_row now code log r

  no_files :
      (r : Build) → (r.id == id) ≡ true → (file : String) → artifact_file after r.id file ≡ none
  unfolding fail_build
  no_files r e file = rw e refl

  failed-IsRow :
      (r : Build)
      → IsRow digest s r
      → Agrees id attempt r
      → (r.id == id) ≡ true
      → IsRow digest after (new_row r)
  failed-IsRow r row agrees e = elim (Bool-cases (retries code attempt)) [
    | inl again ↦ rw again (omega arith, ground (arith, agrees e), no_files r e)
    | inr over ↦ rw over (row.0, row.1, tt)
  ]

  kept-IsRow : (r : Build) → IsRow digest s r → (r.id == id) ≡ false → IsRow digest after r
  unfolding fail_build
  kept-IsRow r row n = IsRow-same digest s after r (untouched id r.id s n) row

  pub fail_build-IsSound :
      All (Agrees id attempt) s.builds → IsSound digest s → IsSound digest after
  unfolding fail_build
  fail_build-IsSound agrees sound = (
    rw (map-update_where (λ b. b.id) (λ b. b.id == id) new_row s.builds (λ r. ground arith))
        sound.0,
    All-changed (λ r. IsRow digest s r × Agrees id attempt r) (IsRow digest after) (λ b. b.id == id)
        new_row s.builds (λ r both e. failed-IsRow r both.0 both.1 e)
        (λ r both n. kept-IsRow r both.0 n)
        (All-zip (IsRow digest s) (Agrees id attempt) (λ r. IsRow digest s r × Agrees id attempt r)
          s.builds (λ r p q. (p, q)) sound.1 agrees),
  )

  -- Rows of other ids keep their attempt.
  fail_build-Agrees :
      (other : Build)
      → (other.id == id) ≡ false
      → All (Agrees other.id other.attempt) s.builds
      → All (Agrees other.id other.attempt) after.builds
  unfolding fail_build
  fail_build-Agrees other n h =
      All-changed (Agrees other.id other.attempt) (Agrees other.id other.attempt) (λ b. b.id == id)
        new_row s.builds
        (λ r p e k. absurd (ground (arith, ==_iff r.id id, ==_iff r.id other.id, ==_refl id)))
        (λ r p e. p) h

abbrev pub AllAgree : AppState → List Build → Type 0
AllAgree s rows = All (λ e. All (Agrees e.id e.attempt) s.builds) rows

agree-others :
    (x : Build) (rows : List Build)
    → contains (ids rows) x.id ≡ false
    → All (Agrees x.id x.attempt) rows × All (λ e. Agrees e.id e.attempt x) rows
agree-others x rows absent =
    let differ = others-differ x.id rows absent in
    (
      All-imp (λ r. (r.id == x.id) ≡ false) (Agrees x.id x.attempt) rows
          (λ r n e. absurd (ground arith)) differ,
      All-imp (λ r. (r.id == x.id) ≡ false) (λ e. Agrees e.id e.attempt x) rows
          (λ r n e. absurd (ground (arith, ==_iff x.id r.id, ==_iff r.id x.id))) differ,
    )

-- Under a key, rows of one id have one attempt.
key-Agrees :
    (rows : List Build) → Nodup (ids rows) → All (λ e. All (Agrees e.id e.attempt) rows) rows
key-Agrees [] h = tt
key-Agrees (x ∷ rows) h =
    let (first, others) = agree-others x rows h.0 in
    (
      ((λ e. refl), first),
      All-zip (λ e. All (Agrees e.id e.attempt) rows) (λ e. Agrees e.id e.attempt x)
          (λ e. All (Agrees e.id e.attempt) (x ∷ rows)) rows (λ e p q. (q, p)) (key-Agrees rows h.1)
          others,
    )

module _ (digest : Bytes → String) (now : ℕ) where
  fail_expired-IsSound :
      (expired : List Build) (s : AppState)
      → Nodup (ids expired)
      → AllAgree s expired
      → IsSound digest s
      → IsSound digest (fail_expired now expired s)
  unfolding fail_expired
  fail_expired-IsSound [] s once agree sound = sound
  fail_expired-IsSound (b ∷ expired) s once agree sound =
      let next = (fail_build now b.id b.attempt "LEASE_EXPIRED" none s).0 in
      fail_expired-IsSound expired next once.1
        (All-zip (λ e. (e.id == b.id) ≡ false) (λ e. All (Agrees e.id e.attempt) s.builds)
          (λ e. All (Agrees e.id e.attempt) next.builds) expired
          (λ e n p. fail_build-Agrees digest now b.id b.attempt "LEASE_EXPIRED" none s e n p)
          (others-differ b.id expired once.0) agree.1)
        (fail_build-IsSound digest now b.id b.attempt "LEASE_EXPIRED" none s agree.0 sound)

  pub expire_leases-IsSound :
      (s : AppState) → IsSound digest s → IsSound digest (expire_leases now s)
  unfolding expire_leases
  expire_leases-IsSound s sound =
      fail_expired-IsSound (keep (is_expired now) s.builds) s
        (Nodup-keep (is_expired now) s.builds sound.0)
        (All-keep (λ e. All (Agrees e.id e.attempt) s.builds) (is_expired now) s.builds
          (key-Agrees s.builds sound.0))
        sound

-- Under a key, a row found by its id gives the attempt of every row of this id.
pub found-Agrees :
    (id : String) (b : Build) (rows : List Build)
    → find (λ r. r.id == id) rows ≡ some b
    → Nodup (ids rows)
    → All (Agrees id b.attempt) rows
found-Agrees id b rows found once =
    All-found (λ r. Unit {0}) (Agrees id b.attempt) id b rows found once (λ u e k. refl)
      (λ r u n e. absurd (ground arith)) (trivial rows)
  where
    trivial : (rest : List Build) → All {0, 0} (λ r. Unit {0}) rest
    trivial [] = tt
    trivial (r ∷ rest) = (tt, trivial rest)
