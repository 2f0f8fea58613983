-- ===== src/Tests/Searching.antt =====
-- transport/fake/filter.go.
use go_adpwsh.Prelude.{
  ℕ, zero, suc, ◌≡◌, ◌↔◌, refl, Bool, true, false, Option, none, some, List, [], ◌∷◌, All, length,
  arith,
}
use go_adpwsh.Prelude.Text.{Bytes, codes, to_lower, bytes_eq}
use go_adpwsh.Fake.Objects.{DirectoryObject, text}
use go_adpwsh.Fake.Wildcard.{match_wildcard}
use go_adpwsh.Fake.Wildcard.Globs.{Globs, match_wildcard-Globs}
use go_adpwsh.Fake.Filter.{
  every, any, verdict, fault, unbalanced, unsupported_operator, match_item, match_filter,
  split_filters,
}
use go_adpwsh.Fake.Filter.Queries.{
  Query, all_of, not_of, one_of, done, more, print, holds, IsAnswered, IsPlain,
}
use go_adpwsh.Fake.Filter.Answers.{match_filter-print}
use go_adpwsh.Prelude.Sort.{bytes_lt}
use go_adpwsh.Prelude.Sorted.{IsSorted}
use go_adpwsh.Prelude.{take}
use mathlib.Core.List.{Memᴰ}
use go_adpwsh.Fake.Search.{Asked, results, handle_search}
use go_adpwsh.Fake.Search.Results.{Wanted, handle_search-print}

match_wildcard-Globs_example :
    (match_wildcard (codes "Jane Doe") (codes "j*doe") ≡ true)
    ↔ Globs (to_lower (codes "j*doe")) (to_lower (codes "Jane Doe"))
unfolding go_adpwsh.Prelude.Text.index
match_wildcard-Globs_example = match_wildcard-Globs (codes "Jane Doe") (codes "j*doe") 1 refl

abbrev jdoe : DirectoryObject
jdoe = record {
  class = codes "user";
  dn = codes "CN=x,DC=corp,DC=local";
  data_of =
      (codes "samAccountName", text (codes "jdoe"))
      ∷ (codes "description", text (codes "R&D"))
      ∷ [];
  deleted = false;
}

-- (&(dn=*)(!(cn=x)))
abbrev asked_for : Query
asked_for = all_of every (one_of (codes "dn=*")) (more (not_of (one_of (codes "cn=x"))) done)

abbrev stored : Bytes → Bool
stored s = bytes_eq s (codes "dn=*")

asked_for-IsAnswered : IsAnswered jdoe stored asked_for
unfolding IsAnswered match_item go_adpwsh.Fake.Filter.shape_of
asked_for-IsAnswered = ((refl, ground arith, refl), ((refl, ground arith, refl), tt))

match_filter-print_example :
    match_filter 100 jdoe (print asked_for) ≡ verdict (holds stored asked_for)
unfolding go_adpwsh.Fake.Filter.Queries.inner
match_filter-print_example =
    match_filter-print jdoe stored asked_for 100 asked_for-IsAnswered (ground arith)

found : match_filter 9 jdoe (codes "(&(sAMAccountName=J*E)(!(title=*)))") ≡ verdict true
unfolding match_filter
found = refl

operator_refused :
    match_filter 9 jdoe (codes "(x~=y)") ≡ fault (unsupported_operator (codes "x~=y"))
unfolding match_filter
operator_refused = refl

-- An escaped star is a star to matchItem: the value R&D has no star in it.
escaped_star : match_item jdoe (codes "description=\\2a") ≡ verdict true
unfolding match_item
escaped_star = refl

-- What stands between the parts of a junction is passed over.
stray_text : split_filters (codes "x(a=b)y") ≡ some (codes "(a=b)" ∷ [])
unfolding split_filters
stray_text = refl

abbrev users : Asked
users = record {
  class = codes "user";
  filter = print asked_for;
  base = codes "DC=corp,DC=local";
  scope = codes "Subtree";
  max = 10;
}

handle_search-print_example :
    (found : List DirectoryObject) × (handle_search users (jdoe ∷ []) ≡ results (take 10 found))
    × IsSorted (λ o p. bytes_lt o.dn p.dn) found
    × ((o : DirectoryObject)
        → Memᴰ o found ↔ (Memᴰ o (jdoe ∷ []) × Wanted users asked_for (λ o. stored) o))
handle_search-print_example =
    handle_search-print users asked_for (λ o. stored) (jdoe ∷ []) refl (asked_for-IsAnswered, tt)

jdoe-found : handle_search users (jdoe ∷ []) ≡ results (jdoe ∷ [])
unfolding handle_search go_adpwsh.Fake.Filter.Queries.inner
jdoe-found = refl
