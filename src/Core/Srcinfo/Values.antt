-- ===== src/Core/Srcinfo/Values.antt =====
-- The loop over the lines of a `.SRCINFO`: a set grows by the values of its lines, and a single
-- value is the last one given.
use aursmith.Base.{
  String, List, [], ◌∷◌, foldl, ◌||◌, Option, none, some, string_ord, pair_ord, Ord, ◌≡◌, refl, ◌∙◌,
  arith, contains, contains-insert, insert, insert-IsSorted, IsSorted, Option-cases, inl, inr,
}
use aursmith.Core.Srcinfo.{Key, key_of, Parsed, assign, read_line, assign_field, parse_line}

abbrev pub push_some : {A : Type 0} → Option A → List A → List A
push_some none rest = rest
push_some (some a) rest = a ∷ rest

-- the values that the lines with such a key give, in the order of the lines
module _ {A : Type 0} (value_of : Key → String → Option A) where
  abbrev pub collect : Option (String × String) → List A → List A
  collect none rest = rest
  collect (some (key, value)) rest = push_some (value_of (key_of key) value) rest

  abbrev pub values : List String → List A
  values [] = []
  values (line ∷ ls) = collect (read_line line) (values ls)

abbrev pub insert_some : {A : Type 0} ⦃o : Ord A⦄ → Option A → List A → List A
insert_some none xs = xs
insert_some (some a) xs = insert a xs

-- A list of `Parsed` that grows by such values holds those of all the lines.
module _ {A : Type 0} ⦃o : Ord A⦄ (value_of : Key → String → Option A) (project : Parsed → List A)
    (grows : (key : Key) (value : String) (p : Parsed)
      → project (assign key value p) ≡ insert_some (value_of key value) (project p)) where
  contains-field :
      (f : Option (String × String)) (p : Parsed) (rest : List A) (a : A)
      → (contains (project (assign_field f p)) a || contains rest a)
        ≡ (contains (project p) a || contains (collect value_of f rest) a)
  contains-field none p rest a = refl
  contains-field (some (key, value)) p rest a = elim (Option-cases (value_of (key_of key) value)) [
    | inl none_left ↦ ground (arith, grows (key_of key) value p)
    | inr (b, e) ↦ ground (arith, grows (key_of key) value p, contains-insert b a (project p))
  ]

  pub contains-values :
      (ls : List String) (p : Parsed) (a : A)
      → contains (project (foldl parse_line p ls)) a
        ≡ (contains (project p) a || contains (values value_of ls) a)
  unfolding parse_line
  contains-values [] p a = ground arith
  contains-values (line ∷ ls) p a =
      contains-values ls (assign_field (read_line line) p) a
      ∙ contains-field (read_line line) p (values value_of ls) a

  field-IsSorted :
      (f : Option (String × String)) (p : Parsed)
      → IsSorted (project p)
      → IsSorted (project (assign_field f p))
  field-IsSorted none p h = h
  field-IsSorted (some (key, value)) p h = elim (Option-cases (value_of (key_of key) value)) [
    | inl none_left ↦ rw (grows, none_left) h
    | inr (b, e) ↦ rw (grows, e) (insert-IsSorted b (project p) h)
  ]

  pub values-IsSorted :
      (ls : List String) (p : Parsed)
      → IsSorted (project p)
      → IsSorted (project (foldl parse_line p ls))
  unfolding parse_line
  values-IsSorted [] p h = h
  values-IsSorted (line ∷ ls) p h =
      values-IsSorted ls (assign_field (read_line line) p) (field-IsSorted (read_line line) p h)

-- The last of the values, or what was there before.
abbrev pub last_or : {A : Type 0} → Option A → List A → Option A
last_or d [] = d
last_or d (a ∷ xs) = last_or (some a) xs

abbrev pub override : {A : Type 0} → Option A → Option A → Option A
override none d = d
override (some a) d = some a

module _ {A : Type 0} (value_of : Key → String → Option A) (project : Parsed → Option A)
    (sets : (key : Key) (value : String) (p : Parsed)
      → project (assign key value p) ≡ override (value_of key value) (project p)) where
  last_or-field :
      (f : Option (String × String)) (p : Parsed) (rest : List A)
      → last_or (project (assign_field f p)) rest ≡ last_or (project p) (collect value_of f rest)
  last_or-field none p rest = refl
  last_or-field (some (key, value)) p rest = elim (Option-cases (value_of (key_of key) value)) [
    | inl none_left ↦ rw (sets, none_left) refl
    | inr (b, e) ↦ rw (sets, e) refl
  ]

  pub last-value :
      (ls : List String) (p : Parsed)
      → project (foldl parse_line p ls) ≡ last_or (project p) (values value_of ls)
  unfolding parse_line
  last-value [] p = refl
  last-value (line ∷ ls) p =
      last-value ls (assign_field (read_line line) p)
      ∙ last_or-field (read_line line) p (values value_of ls)
