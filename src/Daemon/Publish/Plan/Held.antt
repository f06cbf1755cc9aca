-- ===== src/Daemon/Publish/Plan/Held.antt =====
-- crates/aursmithd/src/publish.rs: the digests that the signer is taken to have are those of the plan that
-- was published last.
use aursmith.Base.{
  ◌≤◌, String, List, [], ◌∷◌, map, true, false, Option, none, some, ◌≡◌, refl, subst, ap, arith,
  string_ord, contains, All, keep, newest, newer, ltb, Bool-cases, Option-cases, inl, inr, ◌⊎◌,
  some-injective,
}
use aursmith.Daemon.State.{AppState, Publication, PublicationState, published}
use aursmith.Daemon.Keyed.{All-imp}
use aursmith.Daemon.Publish.Plan.{is_published, digests_of_row, published_digests}

-- a row of the table
abbrev pub IsIn : Publication → List Publication → Type 0
IsIn p [] = ⊥
IsIn p (q ∷ rows) = p ≡ q ⊎ IsIn p rows

-- a digest of the plan of a publication that has been published, and none was created later
pub record IsHeld (s : AppState) (sha256 : String) : Type 0 where
  pub last : Publication
  pub row : IsIn last s.publications
  pub state : last.state ≡ published
  pub latest : All (λ q. q.state ≡ published → q.created_at ≤ last.created_at) s.publications
  pub listed : contains (map (λ a. a.sha256) last.plan.artifacts) sha256 ≡ true

record IsNewest (rows : List Publication) (p : Publication) : Type 0 where
  row : IsIn p rows
  state : is_published p.state ≡ true
  latest : All (λ q. is_published q.state ≡ true → q.created_at ≤ p.created_at) rows

keep-none :
    (rows : List Publication)
    → newest (λ p. p.created_at) (keep (λ p. is_published p.state) rows) ≡ none
    → All (λ q. is_published q.state ≡ false) rows
keep-none [] e = tt
keep-none (p ∷ rows) e = elim (Bool-cases (is_published p.state)) [
  | inr n ↦ (n, keep-none rows (rw (n, keep) at e))
  | inl h ↦ absurd (
      newer-some p (newest (λ q. q.created_at) (keep (λ q. is_published q.state) rows))
        (rw (h, keep) at e))
]
  where
    newer-some :
        (q : Publication) (rest : Option Publication) → newer (λ x. x.created_at) q rest ≡ none → ⊥
    newer-some q none h = ground arith
    newer-some q (some x) h = ground arith

-- the one of two that `newer` takes
newer-cases :
    (q b p : Publication)
    → newer (λ x. x.created_at) q (some b) ≡ some p
    → ((b ≡ p) × (q.created_at ≤ b.created_at)) ⊎ ((q ≡ p) × (b.created_at ≤ q.created_at))
newer-cases q b p e = elim (Bool-cases (ltb q.created_at b.created_at)) [
  | inl h ↦ inl (some-injective b p (rw h at e), ground arith)
  | inr n ↦ inr (some-injective q p (rw n at e), ground arith)
]

newest-IsNewest :
    (rows : List Publication) (p : Publication)
    → newest (λ q. q.created_at) (keep (λ q. is_published q.state) rows) ≡ some p
    → IsNewest rows p
newest-IsNewest [] p e = absurd (ground arith)
newest-IsNewest (q ∷ rows) p e =
    let rest = newest (λ x. x.created_at) (keep (λ x. is_published x.state) rows) in
    elim (Bool-cases (is_published q.state)) [
      | inr n ↦
          let h = newest-IsNewest rows p (rw (n, keep) at e) in
          record {
            row = inr h.row;
            state = h.state;
            latest = ((λ e2. absurd (ground (arith, n, e2))), h.latest);
          }
      | inl own ↦ elim (Option-cases rest) [
        | inl n ↦
            let same : q ≡ p = some-injective q p (rw (n, newer) at (rw (own, keep) at e)) in
            subst (IsNewest (q ∷ rows)) same (record {
              row = inl refl;
              state = own;
              latest = (
                (λ e2. omega arith),
                All-imp (λ x. is_published x.state ≡ false)
                    (λ x. is_published x.state ≡ true → x.created_at ≤ q.created_at) rows
                    (λ x no e2. absurd (ground (arith, no, e2))) (keep-none rows n),
              );
            })
        | inr (b, found) ↦
            let h = newest-IsNewest rows b found in
            elim (newer-cases q b p (rw found at (rw (own, keep) at e))) [
              | inl (same, later) ↦
                  subst (IsNewest (q ∷ rows)) same (record {
                    row = inr h.row;
                    state = h.state;
                    latest = ((λ e2. later), h.latest);
                  })
              | inr (same, later) ↦ subst (IsNewest (q ∷ rows)) same (record {
                row = inl refl;
                state = own;
                latest = (
                  (λ e2. omega arith),
                  All-imp (λ x. is_published x.state ≡ true → x.created_at ≤ b.created_at)
                      (λ x. is_published x.state ≡ true → x.created_at ≤ q.created_at) rows
                      (λ x before e2. omega (arith, before e2, later)) h.latest,
                );
              })
            ]
      ]
    ]

is_published-published : (state : PublicationState) → is_published state ≡ true → state ≡ published
is_published-published published e = refl
is_published-published _ e = absurd (ground arith)

-- What the code takes to be held is in the plan that was published last.
pub published_digests-IsHeld :
    (s : AppState) (sha256 : String)
    → contains (published_digests s) sha256 ≡ true
    → IsHeld s sha256
published_digests-IsHeld s sha256 e =
    elim (Option-cases
      (newest (λ p. p.created_at) (keep (λ p. is_published p.state) s.publications))) [
        | inl n ↦ absurd (ground (arith, rw (n, digests_of_row) at e))
        | inr (p, found) ↦
            let h = newest-IsNewest s.publications p found in
            record {
              last = p;
              row = h.row;
              state = is_published-published p.state h.state;
              latest =
                  All-imp (λ q. is_published q.state ≡ true → q.created_at ≤ p.created_at)
                    (λ q. q.state ≡ published → q.created_at ≤ p.created_at) s.publications
                    (λ q before e2. before (ap is_published e2)) h.latest;
              listed = rw (found, digests_of_row) at e;
            }
      ]
