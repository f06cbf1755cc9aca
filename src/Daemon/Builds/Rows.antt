-- ===== src/Daemon/Builds/Rows.antt =====
-- The table of builds with its primary key: what holds of the rows when one of them is found by its id.
use aursmith.Base.{
  String, List, [], ◌∷◌, map, Bool, true, false, none, some, ◌≡◌, refl, arith, ◌==◌, string_ord,
  contains, Nodup, All, find, keep, ==_iff, if◌then◌else◌, Bool-cases, inl, inr, sym, ap, subst,
  ◌∙◌, some-injective,
}
use aursmith.Daemon.State.{Build}
use aursmith.Daemon.Keyed.{All-zip}

abbrev pub ids : List Build → List String
ids rows = map (λ b. b.id) rows

pub others-differ :
    (id : String) (rows : List Build)
    → contains (ids rows) id ≡ false
    → All (λ r. (r.id == id) ≡ false) rows
others-differ id [] h = tt
others-differ id (r ∷ rows) h = (ground arith, others-differ id rows (ground arith))

pub Nodup-keep :
    (test : Build → Bool) (rows : List Build) → Nodup (ids rows) → Nodup (ids (keep test rows))
Nodup-keep test [] h = tt
Nodup-keep test (r ∷ rows) h = ground (arith, Nodup-keep test rows, absent r.id rows)
  where
    absent :
        (id : String) (rest : List Build)
        → contains (ids rest) id ≡ false
        → contains (ids (keep test rest)) id ≡ false
    absent id [] e = refl
    absent id (x ∷ rest) e = ground (arith, absent id rest)

pub head-found :
    (id : String) (r b : Build) (rows : List Build)
    → find (λ x. x.id == id) (r ∷ rows) ≡ some b
    → (r.id == id) ≡ true
    → r ≡ b
head-found id r b rows found e =
    some-injective r b
      (subst (λ t. (if t then some r else find (λ x. x.id == id) rows) ≡ some b) e found)

-- A row found by its id is the one row with this id.
pub All-found :
    (P Q : Build → Type 0) (id : String) (b : Build) (rows : List Build)
    → find (λ r. r.id == id) rows ≡ some b
    → Nodup (ids rows)
    → (P b → (b.id ≡ id) → Q b)
    → ((r : Build) → P r → (r.id == id) ≡ false → Q r)
    → All P rows
    → All Q rows
All-found P Q id b [] found once f g h = tt
All-found P Q id b (r ∷ rows) found once f g h = elim (Bool-cases (r.id == id)) [
  | inl e ↦
      let same = head-found id r b rows found e in
      let same_id = (==_iff r.id id).0 e in
      (
        subst Q (sym same) (f (subst P same h.0) (sym (ap (λ x. x.id) same) ∙ same_id)),
        All-zip P (λ x. (x.id == id) ≡ false) Q rows g h.1
            (others-differ id rows (subst (λ i. contains (ids rows) i ≡ false) same_id once.0)),
      )
  | inr n ↦ (g r h.0 n, All-found P Q id b rows (ground arith) once.1 f g h.1)
]

-- the rows of an id that is not there
pub not-found :
    (id : String) (rows : List Build)
    → find (λ r. r.id == id) rows ≡ none
    → contains (ids rows) id ≡ false
not-found id [] h = refl
not-found id (r ∷ rows) h = ground (arith, not-found id rows)

pub All-at :
    (P : Build → Type 0) (id : String) (b : Build) (rows : List Build)
    → find (λ r. r.id == id) rows ≡ some b
    → All P rows
    → P b
All-at P id b [] found h = absurd (ground arith)
All-at P id b (r ∷ rows) found h = elim (Bool-cases (r.id == id)) [
  | inl e ↦ subst P (head-found id r b rows found e) h.0
  | inr n ↦ All-at P id b rows (ground arith) h.1
]

pub found-id :
    (id : String) (b : Build) (rows : List Build) → find (λ r. r.id == id) rows ≡ some b → b.id ≡ id
found-id id b [] found = absurd (ground arith)
found-id id b (r ∷ rows) found = elim (Bool-cases (r.id == id)) [
  | inl e ↦ ap (λ x. x.id) (sym (head-found id r b rows found e)) ∙ (==_iff r.id id).0 e
  | inr n ↦ found-id id b rows (ground arith)
]
