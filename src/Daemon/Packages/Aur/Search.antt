-- ===== src/Daemon/Packages/Aur/Search.antt =====
-- crates/aursmithd/src/aur.rs: the order of the results of a search, and the names of the packages
-- that provide a dependency.
use aursmith.Daemon.Keyed.{All-imp}
use aursmith.Base.{
  [], ◌∷◌, arith, All, IsBefore, ◌||◌, true, Ordering, ℕ, String, ◌+++◌, List, map, Bool, ◌≡◌, ◌==◌,
  nat_ord, string_ord, pair_ord, starts_with, has_text, to_ascii_lowercase, to_set, sort_by, by_key,
  IsRanked, sort_by-IsRanked, count, count-sort_by, if◌then◌else◌,
}
use aursmith.Daemon.Packages.Aur.{AurPackage}

-- The second test is that of a suffix after the query that starts with a dash.
abbrev pub search_rank : String → String → ℕ
search_rank query name =
    if name == query
    then 0
    else if starts_with name (query +++ "-")
    then 1
    else if starts_with name query
    then 2
    else if has_text query name
    then 3
    else 4

unfoldable pub search_key : String → AurPackage → ℕ × String
unfolding to_ascii_lowercase
search_key query p =
    let name = to_ascii_lowercase p.name in (search_rank (to_ascii_lowercase query) name, name)

unfoldable pub rank_search_results : List AurPackage → String → List AurPackage
unfolding search_key
rank_search_results packages query = sort_by (by_key (search_key query)) packages

unfoldable pub provider_info_names : List AurPackage → List String
provider_info_names matches = to_set (map (λ p. p.name) matches)

-- A comes before B only where A's name is not behind B's: tests of the names in lower case, from the
-- query itself to names that contain it; for names that pass the same tests, the order of the names.
pub record Precedes (query : String) (a b : AurPackage) : Type 0 where
  pub exact :
      (to_ascii_lowercase b.name == to_ascii_lowercase query) ≡ true
      → (to_ascii_lowercase a.name == to_ascii_lowercase query) ≡ true
  pub family :
      starts_with (to_ascii_lowercase b.name) (to_ascii_lowercase query +++ "-") ≡ true
      → (to_ascii_lowercase a.name == to_ascii_lowercase query
          || starts_with (to_ascii_lowercase a.name) (to_ascii_lowercase query +++ "-"))
        ≡ true
  pub beginning :
      starts_with (to_ascii_lowercase b.name) (to_ascii_lowercase query) ≡ true
      → (to_ascii_lowercase a.name == to_ascii_lowercase query
          || starts_with (to_ascii_lowercase a.name) (to_ascii_lowercase query +++ "-")
          || starts_with (to_ascii_lowercase a.name) (to_ascii_lowercase query))
        ≡ true
  pub within :
      has_text (to_ascii_lowercase query) (to_ascii_lowercase b.name) ≡ true
      → (to_ascii_lowercase a.name == to_ascii_lowercase query
          || starts_with (to_ascii_lowercase a.name) (to_ascii_lowercase query +++ "-")
          || starts_with (to_ascii_lowercase a.name) (to_ascii_lowercase query)
          || has_text (to_ascii_lowercase query) (to_ascii_lowercase a.name))
        ≡ true
  pub ascending :
      (to_ascii_lowercase a.name == to_ascii_lowercase query)
        ≡ (to_ascii_lowercase b.name == to_ascii_lowercase query)
      → starts_with (to_ascii_lowercase a.name) (to_ascii_lowercase query +++ "-")
        ≡ starts_with (to_ascii_lowercase b.name) (to_ascii_lowercase query +++ "-")
      → starts_with (to_ascii_lowercase a.name) (to_ascii_lowercase query)
        ≡ starts_with (to_ascii_lowercase b.name) (to_ascii_lowercase query)
      → has_text (to_ascii_lowercase query) (to_ascii_lowercase a.name)
        ≡ has_text (to_ascii_lowercase query) (to_ascii_lowercase b.name)
      → (string_ord.cmp (to_ascii_lowercase a.name) (to_ascii_lowercase b.name) ≡ Ordering.gt → ⊥)

-- each element stands in the relation to all behind it
abbrev pub AllPairs : {A : Type 0} → (A → A → Type 0) → List A → Type 0
AllPairs R [] = Unit
AllPairs R (a ∷ xs) = All (R a) xs × AllPairs R xs

before-Precedes :
    (query : String) (a b : AurPackage) → IsBefore (search_key query) a b → Precedes query a b
unfolding search_key
before-Precedes query a b h = record {
  exact = λ e. ground arith;
  family = λ e. ground arith;
  beginning = λ e. ground arith;
  within = λ e. ground arith;
  ascending = λ e f g i gt. ground arith;
}

ranked-AllPairs :
    (query : String) (l : List AurPackage)
    → IsRanked (search_key query) l
    → AllPairs (Precedes query) l
ranked-AllPairs query [] h = tt
ranked-AllPairs query (a ∷ l) h = (
  All-imp (IsBefore (search_key query) a) (Precedes query a) l
      (λ b before. before-Precedes query a b before) h.0,
  ranked-AllPairs query l h.1,
)

-- The results of a search are ranked, by their names in lower case: the package of the name comes first,
-- then those whose names go on with a dash, those whose names start with the query, those whose names
-- contain it, and the others; names that pass the same tests ascend. No package is lost, and none added.
pub rank_search_results-Precedes :
    (packages : List AurPackage) (query : String)
    → AllPairs (Precedes query) (rank_search_results packages query)
      × ((p : AurPackage → Bool) → count p (rank_search_results packages query) ≡ count p packages)
unfolding rank_search_results
rank_search_results-Precedes packages query = (
  ranked-AllPairs query (sort_by (by_key (search_key query)) packages)
      (sort_by-IsRanked (search_key query) packages),
  λ p. count-sort_by p (by_key (search_key query)) packages,
)
