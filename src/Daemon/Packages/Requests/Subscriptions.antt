-- ===== src/Daemon/Packages/Requests/Subscriptions.antt =====
-- crates/aursmithd/src/packages.rs: a subscription that is refused changes nothing, and one that is made
-- can be undone.
use aursmith.Base.{
  ℕ, String, List, [], ◌∷◌, ◌++◌, Bool, true, false, not, ok, err, ◌≡◌, refl, sym, ◌∙◌, ap, subst,
  arith, ◌==◌, string_ord, nat_ord, contains, keep, any, trim, ==_refl,
}
use aursmith.Core.Names.{validate_package_name}
use aursmith.Daemon.State.{AppState}
use aursmith.Daemon.Handler.{
  ApiError, ApiResult, Handler, bind-ok, check-ok, lift, check, modify, conflict_error, ◌>>=◌, ◌>>◌,
}
use aursmith.Daemon.Table.{affected}
use aursmith.Daemon.Packages.Aur.{AurPackage}
use aursmith.Daemon.Packages.Sync.{Sources, sync_and_record}
use aursmith.Daemon.Packages.Sync.Keeping.{sync_and_record-Untouched, ensure_package-Untouched}
use aursmith.Daemon.Packages.Requests.{
  SyncReport, subscribe, subscribe_named, subscribe_found, subscribe_asked, subscribe_first,
  subscribe_to, checked, or_bad_request, first_package, unsubscribe, Unsubscribed,
}

-- a part of a handler that changes nothing where it ends with an error
abbrev IsHarmless : {A : Type 0} → Handler A → Type 0
IsHarmless {A} m = (s : AppState) (e : ApiError) → (m s).0 ≡ err e → (m s).1 ≡ s

lift-IsHarmless :
    {A B : Type 0} (r : ApiResult A) (f : A → Handler B)
    → ((a : A) → IsHarmless (f a))
    → IsHarmless (lift r >>= f)
lift-IsHarmless (ok a) f h s e failed = h a s e failed
lift-IsHarmless (err x) f h s e failed = refl

check-IsHarmless :
    {B : Type 0} (test : Bool) (error : ApiError) (k : Handler B)
    → IsHarmless k
    → IsHarmless (check test error >> k)
check-IsHarmless true error k h s e failed = h s e failed
check-IsHarmless false error k h s e failed = refl

module _ (sources : Sources) (now : ℕ) (uuid : ℕ → String) where
  subscribe_first-IsHarmless :
      (name : String) (found : AurPackage) (official : List String)
      → IsHarmless (subscribe_first sources now uuid name found official)
  subscribe_first-IsHarmless name found official =
      check-IsHarmless (not (contains official name))
        (conflict_error "PACKAGE_IN_OFFICIAL_REPOSITORY")
        (modify (subscribe_to now found) >> checked sources now uuid found.package_base)
        (λ s e failed. absurd (ground (arith, failed)))

  subscribe_named-IsHarmless : (name : String) → IsHarmless (subscribe_named sources now uuid name)
  subscribe_named-IsHarmless name =
      lift-IsHarmless (or_bad_request "AUR_LOOKUP_FAILED" (sources.client.info (name ∷ [])))
        (subscribe_asked sources now uuid name)
        (λ packages.
          lift-IsHarmless (first_package packages) (subscribe_found sources now uuid name) (λ found.
            lift-IsHarmless (or_bad_request "OFFICIAL_LOOKUP_FAILED" (sources.client.official name))
              (subscribe_first sources now uuid name found)
              (λ official. subscribe_first-IsHarmless name found official)))

  -- A request for a subscription that is answered with an error leaves the whole state as it was: the
  -- name is invalid, the AUR does not have it, the official repositories have it, or one cannot be asked.
  pub subscribe-error :
      (name : String) (s : AppState) (e : ApiError)
      → (subscribe sources now uuid name s).0 ≡ err e
      → (subscribe sources now uuid name s).1 ≡ s
  unfolding subscribe
  subscribe-error name s e failed =
      lift-IsHarmless (or_bad_request "INVALID_PACKAGE_NAME" (validate_package_name (trim name)))
        (subscribe_named sources now uuid) subscribe_named-IsHarmless s e failed

  -- what a subscription that is accepted leaves of the subscriptions
  record IsSubscribed (s : AppState) (result : SyncReport) (t : AppState) : Type 0 where
    found : AurPackage
    own : result.package_base ≡ found.package_base
    state : t ≡ sync_and_record sources now uuid (subscribe_to now found s) found.package_base

  subscribe-IsSubscribed :
      (name : String) (s : AppState) (result : SyncReport)
      → (subscribe sources now uuid name s).0 ≡ ok result
      → IsSubscribed s result (subscribe sources now uuid name s).1
  unfolding subscribe
  subscribe-IsSubscribed name s result h =
      let (valid, (e0, run0)) =
        bind-ok (lift (or_bad_request "INVALID_PACKAGE_NAME" (validate_package_name (trim name))))
          (subscribe_named sources now uuid) s result h in
      let h1 = sym (ap (λ x. x.0) run0) ∙ h in
      let (packages, (e1, run1)) =
        bind-ok (lift (or_bad_request "AUR_LOOKUP_FAILED" (sources.client.info (valid ∷ []))))
          (subscribe_asked sources now uuid valid) s result h1 in
      let h2 = sym (ap (λ x. x.0) run1) ∙ h1 in
      let (found, (e2, run2)) =
        bind-ok (lift (first_package packages)) (subscribe_found sources now uuid valid) s result
          h2 in
      let h3 = sym (ap (λ x. x.0) run2) ∙ h2 in
      let (official, (e3, run3)) =
        bind-ok (lift (or_bad_request "OFFICIAL_LOOKUP_FAILED" (sources.client.official valid)))
          (subscribe_first sources now uuid valid found) s result h3 in
      let h4 = sym (ap (λ x. x.0) run3) ∙ h3 in
      let (free, run4) =
        check-ok (not (contains official valid)) (conflict_error "PACKAGE_IN_OFFICIAL_REPOSITORY")
          (modify (subscribe_to now found) >> checked sources now uuid found.package_base) s result
          h4 in
      let run = run0 ∙ run1 ∙ run2 ∙ run3 ∙ run4 in
      record {
        found = found;
        own = reported result _ (sym (ap (λ x. x.0) run4) ∙ h4);
        state = ap (λ x. x.1) run;
      }
    where
      reported :
          (a b : SyncReport)
          → (let answer : ApiResult SyncReport = ok b in answer ≡ ok a)
          → a.package_base ≡ b.package_base
      reported a b e = let same : b ≡ a = cc in ap (λ r. r.package_base) (sym same)

-- A base that is put at the end of the subscriptions is all that its removal takes away.
keep-end :
    (base : String) (rows : List String)
    → any (λ other. other == base) rows ≡ false
    → keep (λ other. not (other == base)) (rows ++ base ∷ []) ≡ rows
keep-end base [] h = ground (arith, ==_refl base)
keep-end base (row ∷ rows) h = ground (arith, keep-end base rows)

affected-end :
    (base : String) (rows : List String)
    → (affected (λ other. other == base) (rows ++ base ∷ []) == 0) ≡ false
affected-end base [] = ground (arith, ==_refl base)
affected-end base (row ∷ rows) = ground (arith, affected-end base rows)

new_subscription :
    (now : ℕ) (found : AurPackage) (s : AppState)
    → any (λ other. other == found.package_base) s.subscriptions ≡ false
    → (subscribe_to now found s).subscriptions ≡ s.subscriptions ++ found.package_base ∷ []
new_subscription now found s new =
    let ensured = ap (λ x. x.0) (ensure_package-Untouched found.package_base now s) in
    rw ensured (rw new refl)

unsubscribe-subscriptions :
    (base : String) (t : AppState)
    → (affected (λ other. other == base) t.subscriptions == 0) ≡ false
    → ((u : Unsubscribed) × ((unsubscribe base t).0 ≡ ok u))
      × ((unsubscribe base t).1.subscriptions ≡ keep (λ other. not (other == base)) t.subscriptions)
unfolding unsubscribe
unsubscribe-subscriptions base t some_rows = rw some_rows ((_, refl), refl)

-- A subscription that was not there before and is made can be undone: the request to remove it ends
-- well, and the subscriptions are those from before, whatever the check of the package found.
pub unsubscribe-subscribe :
    (sources : Sources) (now : ℕ) (uuid : ℕ → String) (name : String) (s : AppState)
    (result : SyncReport)
    → (subscribe sources now uuid name s).0 ≡ ok result
    → any (λ other. other == result.package_base) s.subscriptions ≡ false
    → ((u : Unsubscribed) × ((unsubscribe result.package_base
            (subscribe sources now uuid name s).1).0
          ≡ ok u))
      × ((unsubscribe result.package_base (subscribe sources now uuid name s).1).1.subscriptions
          ≡ s.subscriptions)
unsubscribe-subscribe sources now uuid name s result h new =
    let made = subscribe-IsSubscribed sources now uuid name s result h in
    let base = made.found.package_base in
    let t = (subscribe sources now uuid name s).1 in
    let new_base = sym (ap (λ b. any (λ other. other == b) s.subscriptions) made.own) ∙ new in
    let before = subscribe_to now made.found s in
    let rows : t.subscriptions ≡ s.subscriptions ++ base ∷ [] =
      ap (λ u. u.subscriptions) made.state
      ∙ ap (λ x. x.0) (sync_and_record-Untouched sources now uuid base before)
      ∙ new_subscription now made.found s new_base in
    let there =
      ap (λ xs. affected (λ other. other == base) xs == 0) rows
      ∙ affected-end base s.subscriptions in
    let (ends, left) = unsubscribe-subscriptions base t there in
    subst
      (λ b.
        ((u : Unsubscribed) × ((unsubscribe b t).0 ≡ ok u))
        × ((unsubscribe b t).1.subscriptions ≡ s.subscriptions))
      (sym made.own)
      (
        ends,
        left
            ∙ ap (keep (λ other. not (other == base))) rows
            ∙ keep-end base s.subscriptions new_base,
      )
