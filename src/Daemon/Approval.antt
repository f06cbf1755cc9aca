-- ===== src/Daemon/Approval.antt =====
-- What stands behind an approved revision: crates/aursmithd/src/review.rs and the part of
-- crates/aursmithd/src/packages.rs that stores a revision.
use aursmith.Base.{
  String, List, map, Bool, true, false, ◌&&◌, ◌||◌, Option, none, some, ◌≡◌, ◌==◌, string_ord, any,
  keep, length, leb, is_some, Nodup, All,
}
use aursmith.Core.Review.{is_approve}
use aursmith.Daemon.State.{AppState, Revision, Review, ReviewKind, human, reuse, Role, low, high}
use aursmith.Daemon.Closure.{is_approved}
use aursmith.Daemon.Review.{is_agent}
pub mod Evidence
pub mod Origins
pub mod Decisions
pub mod Rounds
pub mod Storing
pub mod Gate
mod Examples

abbrev pub is_human : ReviewKind → Bool
is_human human = true
is_human _ = false

abbrev pub is_reuse : ReviewKind → Bool
is_reuse reuse = true
is_reuse _ = false

abbrev pub is_low : Option Role → Bool
is_low (some low) = true
is_low _ = false

abbrev pub is_high : Option Role → Bool
is_high (some high) = true
is_high _ = false

-- reviews that speak for a revision: by an administrator, by the reuse of an approved tree, by an agent
abbrev pub by_human : String → Review → Bool
by_human id v = v.revision_id == id && is_human v.kind && is_approve v.verdict

abbrev pub by_reuse : String → Review → Bool
by_reuse id v = v.revision_id == id && is_reuse v.kind

abbrev pub by_low : String → Review → Bool
by_low id v = v.revision_id == id && is_agent v.kind && is_low v.role && is_approve v.verdict

abbrev pub by_high : String → Review → Bool
by_high id v = v.revision_id == id && is_agent v.kind && is_high v.role && is_approve v.verdict

abbrev pub agents_approve : List Review → String → Bool
agents_approve reviews id = any (by_high id) reviews || leb 2 (length (keep (by_low id) reviews))

-- an administrator, or, for a package with a baseline, the agents by the 2+1 rule
abbrev pub has_evidence : List Review → Revision → Bool
has_evidence reviews r =
    any (by_human r.id) reviews || is_some r.baseline_revision_id && agents_approve reviews r.id

-- the second revision, which is the first one or is noted as reused for it, is approved on evidence, and
-- both are of one package and have the same tree
abbrev pub is_origin : List Review → Revision → Revision → Bool
is_origin reviews r o =
    (o.id == r.id || any (by_reuse r.id) reviews)
    && (o.package_base == r.package_base
        && (o.tree_sha256 == r.tree_sha256 && (is_approved o.state && has_evidence reviews o)))

abbrev pub IsJustified : List Review → List Revision → Revision → Type 0
IsJustified reviews rows r = is_approved r.state ≡ true → any (is_origin reviews r) rows ≡ true

abbrev pub IsReviewed : AppState → Type 0
IsReviewed s =
    Nodup (map (λ r. r.id) s.revisions) × All (IsJustified s.reviews s.revisions) s.revisions
