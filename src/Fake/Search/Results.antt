-- ===== src/Fake/Search/Results.antt =====
-- transport/fake/directory.go: what a search of the test directory returns.
use go_adpwsh.Prelude.{
  ◌≡◌, refl, ap, ◌∙◌, Bool, true, false, ◌&&◌, not, List, [], ◌∷◌, length, if◌then◌else◌, arith,
  All,
}
use go_adpwsh.Prelude.Text.{Bytes, bytes_eq}
use go_adpwsh.Prelude.Sort.{sort, bytes_lt}
use go_adpwsh.Prelude.Sorted.{IsSorted, sort-IsSorted, sort-Mem, Mem-sort, bytes_lt-asym}
use go_adpwsh.Prelude.{ltb, take, ◌↔◌, ◌==◌, zero, suc, sym, ◌≤◌, ℕ, Bool-cases, inl, inr}
use go_adpwsh.Prelude.Text.{bytes_eq_refl, eq_of_bytes_eq}
use go_adpwsh.Fake.Search.Scope.{LiesIn, in_scope-LiesIn, LiesIn-in_scope}
use mathlib.Core.List.{Memᴰ}
use go_adpwsh.Fake.Objects.{DirectoryObject}
use go_adpwsh.Fake.Filter.{verdict, match_filter}
use go_adpwsh.Fake.Filter.Queries.{Query, print, holds, IsAnswered}
use go_adpwsh.Fake.Filter.Answers.{match_filter-print}
use go_adpwsh.Fake.Search.{
  Asked, results, parsing_error, looping, is_candidate, collect, matching, limited, dn_before,
  handle_search, in_scope,
}

-- The objects that pass a test, in their order.
abbrev pub those : (DirectoryObject → Bool) → List DirectoryObject → List DirectoryObject
those p [] = []
those p (o ∷ os) = let rest = those p os in if p o then o ∷ rest else rest

conjunction_iff :
    (d c s h : Bool)
    → (((not d && c && s) && h) ≡ true) ↔ ((d ≡ false) × (c ≡ true) × (s ≡ true) × (h ≡ true))
conjunction_iff d c s h = ground arith

module _ (a : Asked) (q : Query) (test : DirectoryObject → Bytes → Bool) where
  -- What is asked for: a live object of the class, in the scope, that has what the query asks for.
  abbrev pub is_wanted : DirectoryObject → Bool
  is_wanted o =
      (not o.deleted && bytes_eq o.class a.class && in_scope o.dn a.base a.scope)
      && holds (test o) q

  matching-step :
      (o : DirectoryObject) (found : List DirectoryObject) (c m : Bool)
      → (if c then collect (verdict m) o (results found) else results found)
        ≡ results (if c && m then o ∷ found else found)
  unfolding collect
  matching-step o found true true = refl
  matching-step o found true false = refl
  matching-step o found false m = refl

  matching-print :
      (os : List DirectoryObject)
      → a.filter ≡ print q
      → All (λ o. IsAnswered o (test o) q) os
      → matching a os ≡ results (those is_wanted os)
  unfolding matching is_candidate
  matching-print [] e h = refl
  matching-print (o ∷ os) e h =
      let answer : match_filter (length a.filter) o a.filter ≡ verdict (holds (test o) q) =
        ap (λ f. match_filter (length f) o f) e
        ∙ match_filter-print o (test o) q (length (print q)) h.0 (omega arith) in
      ap (λ v. if is_candidate a o then collect v o (matching a os) else matching a os) answer
      ∙ ap (λ r. if is_candidate a o then collect (verdict (holds (test o) q)) o r else r)
          (matching-print os e h.1)
      ∙ matching-step o (those is_wanted os) (is_candidate a o) (holds (test o) q)

  handle_search-those :
      (os : List DirectoryObject)
      → a.filter ≡ print q
      → All (λ o. IsAnswered o (test o) q) os
      → handle_search a os ≡ results (limited a.max (sort dn_before (those is_wanted os)))
  unfolding handle_search
  handle_search-those os e h =
      ap
        (λ r. elim r [
          | results found ↦ results (limited a.max (sort dn_before found))
          | parsing_error e ↦ parsing_error e
          | looping ↦ looping
        ])
        (matching-print os e h)

  -- A live object of the class, in the scope, that has what the query asks for.
  abbrev pub Wanted : DirectoryObject → Type 0
  Wanted o =
      (o.deleted ≡ false)
      × (o.class ≡ a.class)
      × LiesIn a.scope a.base o.dn
      × (holds (test o) q ≡ true)

  is_wanted-Wanted : (o : DirectoryObject) → is_wanted o ≡ true → Wanted o
  is_wanted-Wanted o h =
      let parts =
        (conjunction_iff o.deleted (bytes_eq o.class a.class) (in_scope o.dn a.base a.scope)
            (holds (test o) q)).0
          h in
      (
        parts.0,
        eq_of_bytes_eq o.class a.class parts.1,
        in_scope-LiesIn o.dn a.base a.scope parts.2,
        parts.3,
      )

  Wanted-is_wanted : (o : DirectoryObject) → Wanted o → is_wanted o ≡ true
  Wanted-is_wanted o (live, class, lies, has) =
      let same : bytes_eq o.class a.class ≡ true =
        ap (bytes_eq o.class) (sym class) ∙ bytes_eq_refl o.class in
      (conjunction_iff o.deleted (bytes_eq o.class a.class) (in_scope o.dn a.base a.scope)
          (holds (test o) q)).1
        (live, same, LiesIn-in_scope o.dn a.base a.scope lies, has)

those-Mem :
    (p : DirectoryObject → Bool) (o : DirectoryObject) (os : List DirectoryObject)
    → Memᴰ o (those p os)
    → Memᴰ o os × (p o ≡ true)
those-Mem p o [] h = elim h [ ]
those-Mem p o (x ∷ os) h = elim (Bool-cases (p x)) [
  | inl chosen ↦ those-Mem-first p o x os chosen (those-Mem p o os) (rw chosen at h)
  | inr left ↦ let rest = those-Mem p o os (rw left at h) in (Memᴰ.tail rest.0, rest.1)
]
  where
    those-Mem-first :
        (p : DirectoryObject → Bool) (o x : DirectoryObject) (os : List DirectoryObject)
        → p x ≡ true
        → (Memᴰ o (those p os) → Memᴰ o os × (p o ≡ true))
        → Memᴰ o (x ∷ those p os)
        → Memᴰ o (x ∷ os) × (p o ≡ true)
    those-Mem-first p o x os chosen ih (Memᴰ.head e) = (Memᴰ.head e, ap p e ∙ chosen)
    those-Mem-first p o x os chosen ih (Memᴰ.tail m) = (Memᴰ.tail (ih m).0, (ih m).1)

Mem-those :
    (p : DirectoryObject → Bool) (o : DirectoryObject) (os : List DirectoryObject)
    → Memᴰ o os
    → p o ≡ true
    → Memᴰ o (those p os)
Mem-those p o [] h chosen = elim h [ ]
Mem-those p o (x ∷ os) (Memᴰ.head e) chosen = rw (ap p (sym e) ∙ chosen) (Memᴰ.head e)
Mem-those p o (x ∷ os) (Memᴰ.tail m) chosen = elim (Bool-cases (p x)) [
  | inl first ↦ rw first (Memᴰ.tail (Mem-those p o os m chosen))
  | inr left ↦ rw left (Mem-those p o os m chosen)
]

take-all : (n : ℕ) (os : List DirectoryObject) → length os ≤ n → take n os ≡ os
take-all zero [] h = refl
take-all zero (x ∷ os) h = absurd (omega (arith, h))
take-all (suc n) [] h = refl
take-all (suc n) (x ∷ os) h = ap (◌∷◌ x) (take-all n os (omega (arith, h)))

limited-take :
    (max : ℕ) (os : List DirectoryObject) → limited max os ≡ (if max == 0 then os else take max os)
unfolding limited
limited-take max os = elim (Bool-cases (ltb max (length os))) [
  | inl over ↦ ground (arith, over)
  | inr within ↦ let all = take-all max os (ground (arith, within)) in ground (arith, within, all)
]

dn_before-asym : (o p : DirectoryObject) → bytes_lt o.dn p.dn ≡ true → bytes_lt p.dn o.dn ≡ false
dn_before-asym o p h = bytes_lt-asym o.dn p.dn h

-- A search of the test directory for the text of a query, whose items matchItem answers for every
-- object, succeeds. There is a list of the live objects of the class in the scope that have what the
-- query asks for, and of no others, in the order of their names; the search returns all of it if
-- there is no size limit, and otherwise as many objects from its front as the limit allows.
pub handle_search-print :
    (a : Asked) (q : Query) (test : DirectoryObject → Bytes → Bool) (os : List DirectoryObject)
    → a.filter ≡ print q
    → All (λ o. IsAnswered o (test o) q) os
    → (found : List DirectoryObject) × (handle_search a os
        ≡ results (if a.max == 0 then found else take a.max found))
      × IsSorted (λ o p. bytes_lt o.dn p.dn) found
      × ((o : DirectoryObject) → Memᴰ o found ↔ (Memᴰ o os × Wanted a q test o))
handle_search-print a q test os e h =
    let chosen = those (is_wanted a q test) os in
    (
      sort dn_before chosen,
      handle_search-those a q test os e h ∙ ap results (limited-take a.max (sort dn_before chosen)),
      sort-IsSorted dn_before dn_before-asym chosen,
      λ o. (
        λ m.
            let (there, good) =
              those-Mem (is_wanted a q test) o os (sort-Mem dn_before o chosen m) in
            (there, is_wanted-Wanted a q test o good),
        λ (there, good).
            Mem-sort dn_before o chosen
              (Mem-those (is_wanted a q test) o os there (Wanted-is_wanted a q test o good)),
      ),
    )
