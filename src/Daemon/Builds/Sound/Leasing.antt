-- ===== src/Daemon/Builds/Sound/Leasing.antt =====
-- The lease keeps the builds sound.
use aursmith.Base.{
  ℕ, ◌+◌, String, List, [], ◌∷◌, true, Option, none, ◌≡◌, refl, arith, ◌==◌, string_ord, nat_ord,
  Bool-cases, Result-cases, inl, inr,
}
use aursmith.Core.Protocol.{LeaseRequest, ArtifactRecord}
use aursmith.Daemon.State.{AppState, Build, BuildState, queued, Bytes, Revision}
use aursmith.Daemon.Handler.{bind-keeps, check-keeps}
use aursmith.Daemon.Auth.{require_builder}
use aursmith.Daemon.Table.{affected, update_where}
use aursmith.Daemon.Closure.{Closure, compute_closure}
use aursmith.Daemon.Builds.Usable.{is_queued, artifact_file, dependency_builds, Dependencies}
use aursmith.Daemon.Builds.Failure.{expire_leases}
use aursmith.Daemon.Builds.Lease.{
  lease_loop, lease, claims, claim_row, clamp_lease, valid_builder_id, mark_builder_seen,
  queued_rows,
}
use aursmith.Daemon.Keyed.{map-update_where, All-changed}
use aursmith.Daemon.Builds.Sound.{IsRow, IsSound, IsStored}
use aursmith.Daemon.Builds.Sound.Failing.{expire_leases-IsSound}

module _ (digest : Bytes → String) where
  -- A lease keeps the builds sound.
  claimed-stored :
      (state : BuildState) (artifacts : List ArtifactRecord) (files : String → Option Bytes)
      → is_queued state ≡ true
      → IsStored digest state artifacts files
      → (file : String) → files file ≡ none
  claimed-stored queued artifacts files e h = h
  claimed-stored _ artifacts files e h = absurd (ground arith)

  abbrev claimed : ℕ → LeaseRequest → Build → Dependencies → AppState → AppState
  claimed now request b dependencies s = record s {
    builds =
        update_where (claims b.id)
          (claim_row now request.builder_id (now + clamp_lease request.lease_seconds) dependencies)
          s.builds;
  }

  claimed-IsSound :
      (now : ℕ) (request : LeaseRequest) (b : Build) (dependencies : Dependencies) (s : AppState)
      → IsSound digest s
      → IsSound digest (claimed now request b dependencies s)
  claimed-IsSound now request b dependencies s sound =
      let set =
        claim_row now request.builder_id (now + clamp_lease request.lease_seconds) dependencies in
      (
        rw (map-update_where (λ b. b.id) (claims b.id) set s.builds (λ r. refl)) sound.0,
        All-changed (IsRow digest s) (IsRow digest (claimed now request b dependencies s))
            (claims b.id) set s.builds
            (λ r row e. (
              row.0,
              row.1,
              claimed-stored r.state r.artifacts (artifact_file s r.id) (ground arith) row.2,
            ))
            (λ r row n. row) sound.1,
      )

  lease_loop-IsSound :
      (now : ℕ) (request : LeaseRequest) (c : Closure) (rows : List (Build × Revision))
      (s : AppState)
      → IsSound digest s
      → IsSound digest (lease_loop now request c rows s).1
  unfolding lease_loop
  lease_loop-IsSound now request c [] s sound = sound
  lease_loop-IsSound now request c ((b, r) ∷ rows) s sound =
      elim (Result-cases (dependency_builds s c b.package_base)) [
        | inl (waiting, e) ↦ rw (e, lease_loop) (lease_loop-IsSound now request c rows s sound)
        | inr (dependencies, e) ↦
            let kept = claimed-IsSound now request b dependencies s sound in
            elim (Bool-cases (affected (claims b.id) s.builds == 1)) [
              | inl one ↦ rw (e, lease_loop) (rw (one, lease_loop) kept)
              | inr gone ↦
                  rw (e, lease_loop)
                    (rw (gone, lease_loop) (lease_loop-IsSound now request c rows _ kept))
            ]
      ]

  pub lease-IsSound :
      (sha256 : String → String) (now : ℕ) (authorization : Option String) (request : LeaseRequest)
      (s : AppState)
      → IsSound digest s
      → IsSound digest (lease sha256 now authorization request s).1
  unfolding lease
  lease-IsSound sha256 now authorization request s sound =
      bind-keeps (IsSound digest) (require_builder sha256 authorization) _ s sound (λ u e.
        check-keeps (IsSound digest) (valid_builder_id request.builder_id) _ _ s sound (λ valid.
          let seen = mark_builder_seen now request.builder_id s in
          let t = expire_leases now seen in
          lease_loop-IsSound now request (compute_closure t) (queued_rows t) t
            (expire_leases-IsSound digest now seen sound)))
